-- ===== src/SmallModules/Tests.antt =====
-- Runs of the three modules.
use yu.Prelude.{length, ◌≡◌, refl, true, some, [], ◌∷◌}
use yu.Prelude.Int.{pos, negsuc}
use yu.Prelude.Trace.{run, done}
use yu.SmallModules.SchedWarn.{Kernel, State, Loads}
use yu.SmallModules.WarnMod
use yu.SmallModules.Percpu

-- A kernel that counts, and has a function at every address.
abbrev kernel : Kernel
kernel = record {
  counts = true;
  seq_read_null = some (negsuc 21);
  filp_open_null = some 0;
  is_function = λ q. true;
}

abbrev idle : State
idle = record { t_sched_debug_func = 0; preempt_count = 0 }

kernel-Loads : Loads kernel
kernel-Loads = record {
  seq_read_returns = (negsuc 21, refl);
  filp_open_returns = (0, refl);
  at_address = refl;
}

warn_three :
    WarnMod.init_dummy (pos 3)
    ≡ run (WarnMod.say_loaded ∷ WarnMod.say_dummy_arg (pos 3) ∷ WarnMod.warn ∷ []) (done (pos 0))
unfolding WarnMod.init_dummy
warn_three = refl

-- With nines on the stack.
percpu_calls : length (Percpu.init_test (record { a = λ i. pos 9; c = pos 1 })).calls ≡ 8
unfolding Percpu.init_test
percpu_calls = refl
