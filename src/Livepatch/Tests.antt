-- ===== src/Livepatch/Tests.antt =====
-- Runs of lpm.c.
use yu.Prelude.{
  ℕ, ◌&&◌, if◌then◌else◌, ◌≡◌, ◌≢◌, refl, ap, Option, none, some, true, false, [], ◌∷◌, arith,
}
use yu.Prelude.Int.{ℤ, pos, negsuc, is_zero}
use yu.Prelude.CString.{codes}
use yu.Prelude.Trace.{done, pure}
use yu.Livepatch.Tables.{Text, Show, Core, in_objs, patch, livepatch_init-running}
use yu.Livepatch.Readers.{
  Addresses, first, second, Trace, World, world, tag, by_first, by_second, Execution, at_kmalloc,
  at_eptr, returned,
}
use yu.Livepatch.Readers.Races.{reader_alone, readers_race}
use yu.Livepatch.{
  kmalloc, State, Answers, livepatch_init, livepatch_exit, livepatch_cmdline_proc_show,
}
use yu.Livepatch.Init.{follow, absent, both, registered_with, livepatch_init_status}
use yu.Livepatch.Show.{kfrees, shadow_allocs, shadow_frees, livepatch_cmdline_proc_show-kfree}

abbrev fresh : State
fresh = record { immediate = false; ptr = 0; shadow = 0 }

-- `klp_enable_patch` fails.
abbrev refused : Answers
refused = record {
  have_reliable_stack = false;
  register_patch = pos 0;
  enable_patch = negsuc 21;
  unregister_patch = pos 0;
  unregister_at_exit = negsuc 15;
}

livepatch_init_status_example :
    (s' : State) × (ret : ℤ) × ((livepatch_init refused fresh).outcome ≡ done (s', ret))
    × (is_zero ret ≡ false)
    × (follow absent (livepatch_init refused fresh).calls ≡ both (is_zero ret))
    × (s'.immediate ≡ true)
livepatch_init_status_example = livepatch_init_status refused fresh refl

livepatch_cmdline_proc_show-kfree_example :
    ((livepatch_cmdline_proc_show 4096 9 fresh).outcome
      ≡ done (record { immediate = false; ptr = 4424; shadow = 9 }, pos 0))
    × (kfrees (livepatch_cmdline_proc_show 4096 9 fresh).calls ≡ 4424 ∷ [])
    × (shadow_frees (livepatch_cmdline_proc_show 4096 9 fresh).calls ≡ 4424 ∷ [])
    × (shadow_allocs (livepatch_cmdline_proc_show 4096 9 fresh).calls ≡ 4096 ∷ [])
    × (◌≢◌ {A = ℕ} 4424 4096)
livepatch_cmdline_proc_show-kfree_example =
    livepatch_cmdline_proc_show-kfree 4096 9 fresh (omega arith)

-- A kernel whose functions return 7 each.
abbrev original : Text → Show
original name memory shadow s = pure (s, pos 7)

-- A core that goes by the tables.
abbrev chosen : Option Show → Text → Show
chosen none name = original name
chosen (some new) name = new

abbrev core : Core original
core = record {
  running = λ p b name. if b then chosen (in_objs name p.objs) name else original name;
  disabled = λ p name. refl;
  listed = λ p name new e. ap (λ o. chosen o name) e;
  unlisted = λ p name e. ap (λ o. chosen o name) e;
}

-- The patch is enabled, and disabled before the module is unloaded.
abbrev disabled_then : Answers
disabled_then = record refused { enable_patch = pos 0; unregister_at_exit = pos 0 }

livepatch_init-running_example :
    (s' : State) × (ret : ℤ) × ((livepatch_init disabled_then fresh).outcome ≡ done (s', ret))
    × (core.running patch
          (follow absent (livepatch_init disabled_then fresh).calls).enabled
          (codes "cmdline_proc_show")
        ≡ (if is_zero ret && true
            then livepatch_cmdline_proc_show
            else original (codes "cmdline_proc_show")))
    × (core.running patch
          (follow (registered_with false) (livepatch_exit disabled_then).calls).enabled
          (codes "cmdline_proc_show")
        ≡ original (codes "cmdline_proc_show"))
    × ((follow (registered_with false) (livepatch_exit disabled_then).calls).registered ≡ false)
livepatch_init-running_example =
    livepatch_init-running original core (codes "cmdline_proc_show") disabled_then fresh false refl
      refl

-- Two objects, one page apart.
abbrev two_objects : Addresses
two_objects = record {
  memory = λ r. elim r [ first ↦ 4096 | second ↦ 8192 ];
  shadow = λ r. elim r [ first ↦ 9 | second ↦ 10 ];
}

reader_runs :
    (s' : State) × ((livepatch_cmdline_proc_show 4096 9 fresh).outcome ≡ done (s', pos 0))
    × Execution two_objects
        (world fresh at_kmalloc at_kmalloc)
        (tag first (livepatch_cmdline_proc_show 4096 9 fresh).calls)
        (world s' returned at_kmalloc)
reader_runs = reader_alone two_objects fresh (omega arith)

readers_race_example :
    (tr : Trace) × (w : World) × Execution two_objects (world fresh at_kmalloc at_kmalloc) tr w
    × (kfrees (by_first tr) ≡ 8192 ∷ [])
    × (by_second tr ≡ kmalloc 16 ∷ [])
    × (w.first_at ≡ returned)
    × (w.second_at ≡ at_eptr)
readers_race_example = readers_race two_objects fresh (omega arith)
