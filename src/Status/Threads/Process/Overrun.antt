-- ===== src/Status/Threads/Process/Overrun.antt =====
-- The three threads of pid_status.c, up to where `main` clears its first set of processors.
use yu.Prelude.{◌≡◌, none, List, [], ◌∷◌, ◌++◌}
use yu.Status.{main_thread, func_thread, preempt_thread, Event}
use yu.Status.Threads.Process.{plain, effect, Process, Trace, by}

-- None of the calls creates a thread or joins one.
abbrev AllPlain : List Event → Type 0
AllPlain [] = Unit {0}
AllPlain (e ∷ es) = (effect e ≡ plain) × AllPlain es

-- `main` is the only thread, and stays so.
record Alone (s : Process) : Type 0 where
  no_func : s.func_left ≡ none
  no_preempt : s.preempt_left ≡ none
  stays : AllPlain s.main_left

-- What is done on the way between two states, where `main` is alone.
record OnlyMain (s : Process) (tr : Trace) (v : Process) : Type 0 where
  still : Alone v
  main_kept : by main_thread tr ++ v.main_left ≡ s.main_left
  func_none : by func_thread tr ≡ []
  preempt_none : by preempt_thread tr ≡ []
