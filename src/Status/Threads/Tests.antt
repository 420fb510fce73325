-- ===== src/Status/Threads/Tests.antt =====
-- The threads of pid_status.c, at one order of their calls.
use yu.Prelude.{none, some, true, [], ◌∷◌}
use yu.Prelude.Int.{pos}
use yu.Status.{
  main_thread, sched_other, sched_rr, debug_prefix, info, cpu_alloc, get_priority_max,
  get_priority_min, debug_tid, debug_preempt_core, debug_range,
}
use yu.Status.Threads.{Answers}
use yu.Status.Threads.Process.{Trace}

abbrev answers : Answers
answers = record {
  priority_max = λ p. elim p [ sched_other ↦ pos 0 | sched_rr ↦ pos 99 ];
  priority_min = λ p. elim p [ sched_other ↦ pos 0 | sched_rr ↦ pos 1 ];
  created = λ t. true;
  param_before = some (record { policy = pos 0; priority = pos 0 });
  setschedparam_returns = pos 1;
  param_after = none;
  files = λ i f. none;
  number = 7;
  str = b'c' ∷ [];
}

-- From the start of the process to CPU_ALLOC.
abbrev trace : Trace
trace =
    (main_thread, get_priority_max sched_other)
    ∷ (main_thread, get_priority_min sched_other)
    ∷ (main_thread, debug_prefix info)
    ∷ (main_thread, debug_tid)
    ∷ (main_thread, debug_prefix info)
    ∷ (main_thread, debug_preempt_core 2)
    ∷ (main_thread, debug_prefix info)
    ∷ (main_thread, debug_range (pos 0) (pos 0) sched_other)
    ∷ (main_thread, get_priority_max sched_rr)
    ∷ (main_thread, get_priority_min sched_rr)
    ∷ (main_thread, debug_prefix info)
    ∷ (main_thread, debug_range (pos 1) (pos 99) sched_rr)
    ∷ (main_thread, cpu_alloc 8)
    ∷ []
