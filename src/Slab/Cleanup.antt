-- ===== src/Slab/Cleanup.antt =====
-- What `slabtest_cleanup` frees, against what `slabtest_init` has allocated.
use yu.Prelude.Calls.{call_laws, collect-append}
use mathlib.Core.List.{map}
use yu.Prelude.{ℕ, ◌+◌, ◌<◌, ◌≡◌, refl, ap, ◌∙◌, false, List, [], ◌∷◌, ◌++◌, ◌==◌, length, arith}
use yu.Prelude.Int.{pos}
use yu.Prelude.Trace.{Run, done}
use yu.KernelList.{KernelList}
use yu.Slab.{
  ToFreePtr, Answers, Event, State, kmem_cache_destroy, enomem, init_loop, slabtest_init, free_loop,
  slabtest_cleanup,
}
use yu.Slab.Init.{
  destroyed_by, objects, nodes, freed_objects, freed_nodes, destroyed, ptr_of, address_of, Granted,
  FirstNull, init_loop-Granted, init_loop-FirstNull,
}

-- A run that ends and frees exactly what is given.
pub record Frees (r : Run Event (Unit {0})) (ptrs addresses caches : List ℕ) : Type 0 where
  ended : r.outcome ≡ done tt
  objects_freed : freed_objects r.calls ≡ ptrs
  nodes_freed : freed_nodes r.calls ≡ addresses
  caches_destroyed : destroyed r.calls ≡ caches

module _ (list : KernelList ToFreePtr) where
  open list use {entries}

  free_loop-Frees :
      (cache i : ℕ) (es : List ToFreePtr)
      → Frees (free_loop list cache i es) (map ptr_of es) (map address_of es) []
  unfolding free_loop
  free_loop-Frees cache i [] = record {
    ended = refl;
    objects_freed = refl;
    nodes_freed = refl;
    caches_destroyed = refl;
  }
  free_loop-Frees cache i (e ∷ es) =
      let rest = free_loop-Frees cache (i + 1) es in
      record {
        ended = rest.ended;
        objects_freed = ap (◌∷◌ e.ptr) rest.objects_freed;
        nodes_freed = ap (◌∷◌ e.address) rest.nodes_freed;
        caches_destroyed = rest.caches_destroyed;
      }

  slabtest_cleanup-Frees :
      (s : State list)
      → Frees
          (slabtest_cleanup list s)
          (map ptr_of (entries s.to_free))
          (map address_of (entries s.to_free))
          (s.slabtest_cache ∷ [])
  unfolding slabtest_cleanup
  slabtest_cleanup-Frees s =
      let f = free_loop-Frees s.slabtest_cache 0 (entries s.to_free) in
      let es = (free_loop list s.slabtest_cache 0 (entries s.to_free)).calls in
      let last : List Event = kmem_cache_destroy s.slabtest_cache ∷ [] in
      rw f.ended (record {
        ended = refl;
        objects_freed = simp call_laws f.objects_freed;
        nodes_freed = simp call_laws f.nodes_freed;
        caches_destroyed =
            collect-append destroyed_by es last
            ∙ ap (λ l. l ++ (s.slabtest_cache ∷ [])) f.caches_destroyed;
      })

  module _ (a : Answers) (s : State list) (created : (a.kmem_cache_create == 0) ≡ false)
      (empty : entries s.to_free ≡ []) where
    -- Where all allocations are granted and the list is empty, `slabtest_init` returns 0 with a
    -- thousand objects; and `slabtest_cleanup` then frees just those objects and their nodes, each
    -- once, newest first, and destroys the cache that was created.
    pub slabtest_cleanup-init :
        Granted 1000 0 a
        → (s' : State list) × ((slabtest_init list a s).outcome ≡ done (s', pos 0))
          × (length (objects [] (slabtest_init list a s).calls) ≡ 1000)
          × ((slabtest_cleanup list s').outcome ≡ done tt)
          × (freed_objects (slabtest_cleanup list s').calls
              ≡ objects [] (slabtest_init list a s).calls)
          × (freed_nodes (slabtest_cleanup list s').calls ≡ nodes [] (slabtest_init list a s).calls)
          × (destroyed (slabtest_cleanup list s').calls ≡ a.kmem_cache_create ∷ [])
    unfolding slabtest_init
    slabtest_cleanup-init g =
        let s0 : State list = record s { slabtest_cache = a.kmem_cache_create } in
        let calls = (init_loop list 1000 0 a s0).calls in
        let f = init_loop-Granted list a 1000 0 s0 g in
        let c = slabtest_cleanup-Frees f.end in
        simp created (
          f.end,
          f.ended,
          f.count [],
          c.ended,
          c.objects_freed ∙ f.ptrs ∙ ap (λ l. objects (map ptr_of l) calls) empty,
          c.nodes_freed ∙ f.addresses ∙ ap (λ l. nodes (map address_of l) calls) empty,
          c.caches_destroyed ∙ ap (λ p. p ∷ []) f.cache,
        )

    -- Where round `k` is the first that gets no object, `slabtest_init` fails with -ENOMEM, and gives
    -- back neither the `k` objects and nodes that it has nor the cache.
    pub slabtest_init-leaks :
        (k : ℕ)
        → k < 1000
        → FirstNull k 0 a
        → (s' : State list) × ((slabtest_init list a s).outcome ≡ done (s', enomem))
          × (length (objects [] (slabtest_init list a s).calls) ≡ k)
          × (freed_objects (slabtest_init list a s).calls ≡ [])
          × (freed_nodes (slabtest_init list a s).calls ≡ [])
          × (destroyed (slabtest_init list a s).calls ≡ [])
    unfolding slabtest_init
    slabtest_init-leaks k h g =
        let f =
          init_loop-FirstNull list a k 1000 0 (record s { slabtest_cache = a.kmem_cache_create }) h
            g in
        simp created
          (f.end, f.ended, f.count [] ∙ omega arith, f.no_freed.0, f.no_freed.1, f.no_freed.2)
