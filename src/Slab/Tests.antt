-- ===== src/Slab/Tests.antt =====
-- Runs of slabtest.c over plain lists.
use yu.Prelude.{
  ℕ, zero, suc, ◌+◌, ◌≡◌, refl, ◌⊎◌, ◌<◌, true, false, [], ◌∷◌, ◌==◌, if◌then◌else◌, length, arith,
}
use yu.Prelude.Int.{pos}
use yu.Prelude.Trace.{done, fault}
use yu.KernelList.{KernelList, plain_list}
use yu.Slab.{ToFreePtr, Answers, State, enomem, slabtest_init, slabtest_cleanup}
use yu.Slab.Init.{objects, nodes, freed_objects, freed_nodes, destroyed, Granted, FirstNull}
use yu.Slab.Cleanup.{slabtest_cleanup-init, slabtest_init-leaks}
use yu.Slab.Outcomes.{FirstNodeless, Keeps, slabtest_init-outcomes}

abbrev lists : KernelList ToFreePtr
lists = plain_list ToFreePtr

abbrev unloaded : State lists
unloaded = record { slabtest_cache = 0; slabtest_buf = 0; to_free = [] }

abbrev plenty : Answers
plenty = record { kmem_cache_create = 5; kmem_cache_zalloc = λ i. i + 1; kmalloc = λ i. i + 2000 }

plenty-Granted : (k i : ℕ) → Granted k i plenty
plenty-Granted zero i = tt
plenty-Granted (suc k) i = (ground arith, ground arith, plenty-Granted k (i + 1))

-- The fourth object is refused.
abbrev scarce : Answers
scarce = record plenty { kmem_cache_zalloc = λ i. if i == 3 then 0 else i + 1 }

slabtest_cleanup-init_example :
    (s' : State lists) × ((slabtest_init lists plenty unloaded).outcome ≡ done (s', pos 0))
    × (length (objects [] (slabtest_init lists plenty unloaded).calls) ≡ 1000)
    × ((slabtest_cleanup lists s').outcome ≡ done tt)
    × (freed_objects (slabtest_cleanup lists s').calls
        ≡ objects [] (slabtest_init lists plenty unloaded).calls)
    × (freed_nodes (slabtest_cleanup lists s').calls
        ≡ nodes [] (slabtest_init lists plenty unloaded).calls)
    × (destroyed (slabtest_cleanup lists s').calls ≡ 5 ∷ [])
slabtest_cleanup-init_example =
    slabtest_cleanup-init lists plenty unloaded refl refl (plenty-Granted 1000 0)

scarce_leaks :
    (s' : State lists) × ((slabtest_init lists scarce unloaded).outcome ≡ done (s', enomem))
    × (length (objects [] (slabtest_init lists scarce unloaded).calls) ≡ 3)
    × (freed_objects (slabtest_init lists scarce unloaded).calls ≡ [])
    × (freed_nodes (slabtest_init lists scarce unloaded).calls ≡ [])
    × (destroyed (slabtest_init lists scarce unloaded).calls ≡ [])
scarce_leaks =
    slabtest_init-leaks lists scarce unloaded refl refl 3 (omega arith)
      (refl, refl, (refl, refl, (refl, refl, refl)))

slabtest_init-outcomes_example :
    let r = slabtest_init lists scarce unloaded in
    ((false ≡ true) × (r.outcome ≡ done (unloaded, enomem)) × Keeps lists r 0)
    ⊎ ((false ≡ false)
        × ((Granted 1000 0 scarce
              × ((s' : State lists) × (r.outcome ≡ done (s', pos 0)))
              × Keeps lists r 1000)
            ⊎ ((k : ℕ) × (k < 1000)
                × FirstNull k 0 scarce
                × ((s' : State lists) × (r.outcome ≡ done (s', enomem)))
                × Keeps lists r k)
            ⊎ ((k : ℕ) × (k < 1000)
                × FirstNodeless k 0 scarce
                × (r.outcome ≡ fault)
                × Keeps lists r (suc k))))
slabtest_init-outcomes_example = slabtest_init-outcomes lists scarce unloaded
