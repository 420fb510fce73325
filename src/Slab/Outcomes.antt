-- ===== src/Slab/Outcomes.antt =====
-- All ways in which `slabtest_init` can end.
use yu.Prelude.{
  ℕ, zero, suc, ◌+◌, ◌<◌, ◌≡◌, ◌⊎◌, inl, inr, refl, ap, ◌∙◌, true, false, List, [], ◌∷◌, ◌==◌,
  length, Bool-cases, arith,
}
use yu.Prelude.Int.{ℤ, pos}
use yu.Prelude.Trace.{Run, after, done, fault}
use yu.KernelList.{KernelList}
use yu.Slab.{
  ToFreePtr, Answers, Event, say_init, kmem_cache_create, State, enomem, init_loop, slabtest_init,
}
use yu.Slab.Init.{
  objects, freed_objects, freed_nodes, destroyed, pushed, Granted, FirstNull, Fills,
  init_loop-Granted, init_loop-FirstNull,
}

-- Round `i + k` is the first from `i` on that gets an object and no node for it.
abbrev pub FirstNodeless : ℕ → ℕ → Answers → Type 0
FirstNodeless zero i a = ((a.kmem_cache_zalloc i == 0) ≡ false) × ((a.kmalloc i == 0) ≡ true)
FirstNodeless (suc k) i a =
    ((a.kmem_cache_zalloc i == 0) ≡ false)
    × ((a.kmalloc i == 0) ≡ false)
    × FirstNodeless k (i + 1) a

abbrev Course : ℕ → ℕ → Answers → Type 0
Course left i a =
    Granted left i a
    ⊎ ((k : ℕ) × (k < left) × FirstNull k i a)
    ⊎ ((k : ℕ) × (k < left) × FirstNodeless k i a)

Course-suc :
    (left i : ℕ) (a : Answers)
    → (a.kmem_cache_zalloc i == 0) ≡ false
    → (a.kmalloc i == 0) ≡ false
    → Course left (i + 1) a
    → Course (suc left) i a
Course-suc left i a object node (inl g) = inl (object, node, g)
Course-suc left i a object node (inr (inl (k, h, g))) =
    inr (inl (suc k, omega arith, (object, node, g)))
Course-suc left i a object node (inr (inr (k, h, g))) =
    inr (inr (suc k, omega arith, (object, node, g)))

course : (left i : ℕ) (a : Answers) → Course left i a
course zero i a = inl tt
course (suc left) i a =
    let rest = course left (i + 1) a in
    elim (Bool-cases (a.kmem_cache_zalloc i == 0)) [
      | inl null ↦ inr (inl (0, omega arith, null))
      | inr object ↦ elim (Bool-cases (a.kmalloc i == 0)) [
        | inl null ↦ inr (inr (0, omega arith, (object, null)))
        | inr node ↦ Course-suc left i a object node rest
      ]
    ]

module _ (list : KernelList ToFreePtr) where
  open list use {list_add, entries}

  -- A run that has allocated `n` objects, and gives nothing back.
  pub record Keeps (r : Run Event (State list × ℤ)) (n : ℕ) : Type 0 where
    count : (acc : List ℕ) → length (objects acc r.calls) ≡ length acc + n
    no_freed : (freed_objects r.calls ≡ []) × (freed_nodes r.calls ≡ []) × (destroyed r.calls ≡ [])

  Fills-Keeps :
      {r : Run Event (State list × ℤ)} {s : State list} {result : ℤ} {n : ℕ}
      → Fills list r s result n
      → Keeps r n
  Fills-Keeps f = record { count = f.count; no_freed = f.no_freed }

  -- The two calls in front of the loop.
  after-Keeps :
      (r : Run Event (State list × ℤ)) (n cache : ℕ)
      → Keeps r n
      → Keeps (after (say_init ∷ kmem_cache_create cache ∷ []) r) n
  after-Keeps r n cache k = record { count = k.count; no_freed = k.no_freed }

  pub record Crashes (r : Run Event (State list × ℤ)) (n : ℕ) : Type 0 where
    pub faults : r.outcome ≡ fault
    pub keeps : Keeps r n

  module _ (a : Answers) where
    init_loop-FirstNodeless :
        (k left i : ℕ) (s : State list)
        → k < left
        → FirstNodeless k i a
        → Crashes (init_loop list left i a s) (suc k)
    unfolding init_loop
    init_loop-FirstNodeless k zero i s h g = absurd (omega arith)
    init_loop-FirstNodeless zero (suc left) i s h g =
        simp (g.0, g.1)
          (record {
            faults = refl;
            keeps = record {
              count = λ acc. ap length (pushed (a.kmem_cache_zalloc i) acc g.0) ∙ omega arith;
              no_freed = (refl, refl, refl);
            };
          })
    init_loop-FirstNodeless (suc k) (suc left) i s h g =
        let entry : ToFreePtr = record { address = a.kmalloc i; ptr = a.kmem_cache_zalloc i } in
        let t : State list = record s {
          slabtest_buf = a.kmem_cache_zalloc i;
          to_free = list_add entry s.to_free;
        } in
        let f = init_loop-FirstNodeless k left (i + 1) t (omega arith) g.2 in
        let calls = (init_loop list left (i + 1) a t).calls in
        simp (g.0, g.1)
          (record {
            faults = f.faults;
            keeps = record {
              count = λ acc.
                  ap (λ l. length (objects l calls)) (pushed (a.kmem_cache_zalloc i) acc g.0)
                  ∙ omega (arith, f.keeps.count (a.kmem_cache_zalloc i ∷ acc));
              no_freed = f.keeps.no_freed;
            };
          })

    -- Whatever the allocators return, `slabtest_init` ends in one of four ways. It gets no cache, and
    -- fails with -ENOMEM. Or all its rounds are granted, and it returns 0 with a thousand objects. Or
    -- round `k` is the first that is refused, and gets no object: it fails with -ENOMEM, has `k`
    -- objects, and gives back nothing, also not the cache. Or round `k` is the first that is refused,
    -- and gets an object and no node: it faults.
    pub slabtest_init-outcomes :
        (s : State list)
        → let r = slabtest_init list a s in
          (((a.kmem_cache_create == 0) ≡ true)
            × (r.outcome ≡ done (record s { slabtest_cache = 0 }, enomem))
            × Keeps r 0)
          ⊎ (((a.kmem_cache_create == 0) ≡ false)
              × ((Granted 1000 0 a
                    × ((s' : State list) × (r.outcome ≡ done (s', pos 0)))
                    × Keeps r 1000)
                  ⊎ ((k : ℕ) × (k < 1000)
                      × FirstNull k 0 a
                      × ((s' : State list) × (r.outcome ≡ done (s', enomem)))
                      × Keeps r k)
                  ⊎ ((k : ℕ) × (k < 1000)
                      × FirstNodeless k 0 a
                      × (r.outcome ≡ fault)
                      × Keeps r (suc k))))
    unfolding slabtest_init
    slabtest_init-outcomes s =
        let s0 : State list = record s { slabtest_cache = a.kmem_cache_create } in
        elim (Bool-cases (a.kmem_cache_create == 0)) [
          | inl null ↦ inl (
            null,
            rw null refl,
            rw null (record { count = λ acc. omega arith; no_freed = (refl, refl, refl) }),
          )
          | inr created ↦ inr (
            created,
            elim (course 1000 0 a) [
              | inl g ↦
                  let f = init_loop-Granted list a 1000 0 s0 g in
                  inl (
                    g,
                    (f.end, rw created f.ended),
                    rw created (after-Keeps _ _ a.kmem_cache_create (Fills-Keeps f)),
                  )
              | inr (inl (k, h, g)) ↦
                  let f = init_loop-FirstNull list a k 1000 0 s0 h g in
                  inr (
                    inl (
                      k,
                      h,
                      g,
                      (f.end, rw created f.ended),
                      rw created (after-Keeps _ _ a.kmem_cache_create (Fills-Keeps f)),
                    ))
              | inr (inr (k, h, g)) ↦
                  let f = init_loop-FirstNodeless k 1000 0 s0 h g in
                  inr (
                    inr (
                      k,
                      h,
                      g,
                      rw created f.faults,
                      rw created (after-Keeps _ _ a.kmem_cache_create f.keeps),
                    ))
            ],
          )
        ]
