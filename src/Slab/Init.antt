-- ===== src/Slab/Init.antt =====
-- What `slabtest_init` allocates, and what it keeps in its list.
use yu.Prelude.Calls.{collect}
use mathlib.Core.List.{map}
use yu.Prelude.{
  ℕ, zero, suc, ◌+◌, ◌<◌, ◌≡◌, refl, sym, ap, ◌∙◌, true, false, List, [], ◌∷◌, ◌==◌, if◌then◌else◌,
  length, arith,
}
use yu.Prelude.Int.{ℤ, pos}
use yu.Prelude.Trace.{Run, done}
use yu.KernelList.{KernelList}
use yu.Slab.{
  ToFreePtr, Answers, Event, State, kmem_cache_zalloc, kmalloc, kmem_cache_free, kfree, enomem,
  kmem_cache_destroy, init_loop,
}

-- The objects that the calls allocate from the cache, and the nodes, newest first, in front of
-- those that are given.
abbrev pub objects : List ℕ → List Event → List ℕ
objects acc [] = acc
objects acc (kmem_cache_zalloc cache p ∷ es) = objects (if p == 0 then acc else p ∷ acc) es
objects acc (_ ∷ es) = objects acc es

abbrev pub nodes : List ℕ → List Event → List ℕ
nodes acc [] = acc
nodes acc (kmalloc p ∷ es) = nodes (if p == 0 then acc else p ∷ acc) es
nodes acc (_ ∷ es) = nodes acc es

-- The objects, nodes and caches that the calls give back.
abbrev pub freed_objects_by : Event → List ℕ
freed_objects_by (kmem_cache_free cache p) = p ∷ []
freed_objects_by _ = []

abbrev pub freed_objects : List Event → List ℕ
freed_objects = collect freed_objects_by

abbrev pub freed_nodes_by : Event → List ℕ
freed_nodes_by (kfree p) = p ∷ []
freed_nodes_by _ = []

abbrev pub freed_nodes : List Event → List ℕ
freed_nodes = collect freed_nodes_by

abbrev pub destroyed_by : Event → List ℕ
destroyed_by (kmem_cache_destroy cache) = cache ∷ []
destroyed_by _ = []

abbrev pub destroyed : List Event → List ℕ
destroyed = collect destroyed_by

abbrev pub ptr_of : ToFreePtr → ℕ
ptr_of e = e.ptr

abbrev pub address_of : ToFreePtr → ℕ
address_of e = e.address

-- `k` rounds from index `i` on are granted all that they ask for.
abbrev pub Granted : ℕ → ℕ → Answers → Type 0
Granted zero i a = Unit {0}
Granted (suc k) i a =
    ((a.kmem_cache_zalloc i == 0) ≡ false) × ((a.kmalloc i == 0) ≡ false) × Granted k (i + 1) a

-- Round `i + k` is the first from `i` on that gets no object.
abbrev pub FirstNull : ℕ → ℕ → Answers → Type 0
FirstNull zero i a = (a.kmem_cache_zalloc i == 0) ≡ true
FirstNull (suc k) i a =
    ((a.kmem_cache_zalloc i == 0) ≡ false) × ((a.kmalloc i == 0) ≡ false) × FirstNull k (i + 1) a

pub pushed : (p : ℕ) (acc : List ℕ) → (p == 0) ≡ false → (if p == 0 then acc else p ∷ acc) ≡ p ∷ acc
pushed p acc h = rw h

skipped : (p : ℕ) (acc : List ℕ) → (p == 0) ≡ true → (if p == 0 then acc else p ∷ acc) ≡ acc
skipped p acc h = rw h

module _ (list : KernelList ToFreePtr) where
  open list use {list_add, entries, entries-list_add}

  -- A run that ends with `result`, in a state whose list holds what the calls have allocated on top
  -- of what it held, with the same cache; it allocates `n` objects and gives nothing back.
  pub record Fills (r : Run Event (State list × ℤ)) (s : State list) (result : ℤ) (n : ℕ)
      : Type 0 where
    pub end : State list
    pub ended : r.outcome ≡ done (end, result)
    pub ptrs : map ptr_of (entries end.to_free) ≡ objects (map ptr_of (entries s.to_free)) r.calls
    pub addresses :
        map address_of (entries end.to_free) ≡ nodes (map address_of (entries s.to_free)) r.calls
    pub cache : end.slabtest_cache ≡ s.slabtest_cache
    pub count : (acc : List ℕ) → length (objects acc r.calls) ≡ length acc + n
    pub no_freed :
        (freed_objects r.calls ≡ []) × (freed_nodes r.calls ≡ []) × (destroyed r.calls ≡ [])

  module _ (a : Answers) where
    -- One round that is granted its object and its node, in front of the rest.
    Fills-suc :
        (left i n : ℕ) (s : State list) (result : ℤ)
        → (a.kmem_cache_zalloc i == 0) ≡ false
        → (a.kmalloc i == 0) ≡ false
        → ((t : State list) → Fills (init_loop list left (i + 1) a t) t result n)
        → Fills (init_loop list (suc left) i a s) s result (suc n)
    unfolding init_loop
    Fills-suc left i n s result object node rest =
        let entry : ToFreePtr = record { address = a.kmalloc i; ptr = a.kmem_cache_zalloc i } in
        let t : State list = record s {
          slabtest_buf = a.kmem_cache_zalloc i;
          to_free = list_add entry s.to_free;
        } in
        let f = rest t in
        let calls = (init_loop list left (i + 1) a t).calls in
        let added = entries-list_add entry s.to_free in
        simp (object, node)
          (record {
            end = f.end;
            ended = f.ended;
            ptrs =
                f.ptrs
                ∙ ap (λ es. objects (map ptr_of es) calls) added
                ∙ ap (λ l. objects l calls) (sym (pushed (a.kmem_cache_zalloc i) _ object));
            addresses =
                f.addresses
                ∙ ap (λ es. nodes (map address_of es) calls) added
                ∙ ap (λ l. nodes l calls) (sym (pushed (a.kmalloc i) _ node));
            cache = f.cache;
            count = λ acc.
                ap (λ l. length (objects l calls)) (pushed (a.kmem_cache_zalloc i) acc object)
                ∙ omega (arith, f.count (a.kmem_cache_zalloc i ∷ acc));
            no_freed = f.no_freed;
          })

    pub init_loop-Granted :
        (left i : ℕ) (s : State list)
        → Granted left i a
        → Fills (init_loop list left i a s) s (pos 0) left
    init_loop-Granted zero i s g =
        unfold init_loop in
        record {
          end = s;
          ended = refl;
          ptrs = refl;
          addresses = refl;
          cache = refl;
          count = λ acc. omega arith;
          no_freed = (refl, refl, refl);
        }
    init_loop-Granted (suc left) i s g =
        Fills-suc left i left s (pos 0) g.0 g.1 (λ t. init_loop-Granted left (i + 1) t g.2)

    -- The round that gets no object ends the loop with -ENOMEM.
    pub init_loop-FirstNull :
        (k left i : ℕ) (s : State list)
        → k < left
        → FirstNull k i a
        → Fills (init_loop list left i a s) s enomem k
    init_loop-FirstNull k zero i s h g = absurd (omega arith)
    init_loop-FirstNull zero (suc left) i s h g =
        unfold init_loop in
        rw g (record {
          end = record s { slabtest_buf = a.kmem_cache_zalloc i };
          ended = refl;
          ptrs = sym (skipped (a.kmem_cache_zalloc i) _ g);
          addresses = refl;
          cache = refl;
          count = λ acc. ap length (skipped (a.kmem_cache_zalloc i) acc g) ∙ omega arith;
          no_freed = (refl, refl, refl);
        })
    init_loop-FirstNull (suc k) (suc left) i s h g =
        Fills-suc left i k s enomem g.0 g.1
          (λ t. init_loop-FirstNull k left (i + 1) t (omega arith) g.2)
