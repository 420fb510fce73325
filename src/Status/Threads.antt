-- ===== src/Status/Threads.antt =====
-- The threads of pid_status.c besides `thread_func`, and `main`, each as it runs on its own.
pub mod Process
mod Tests
use yu.Prelude.{ℕ, Bool, Option, none, some, List, if◌then◌else◌}
use yu.Prelude.Int.{ℤ, pos, negsuc, is_zero}
use yu.Prelude.Trace.{Run, ◌>>=◌, ◌>>◌, pure, call, ask, oops, run, after, and_then, done, fault}
use yu.Status.{
  debug_print, info, warn, Thread, func_thread, preempt_thread, Policy, sched_other, sched_rr,
  Event, Files, sleep, cpu_set, cpu_free, getaffinity, setaffinity, debug_cset, get_priority_max,
  get_priority_min, debug_tid, debug_preempt_core, debug_range, getschedparam, debug_policy,
  setschedparam, perror_setschedparam, debug_failed, debug_priority, attr_init, attr_destroy,
  attr_setaffinity, attr_setinheritsched, attr_setschedparam, pthread_create, pthread_join,
  debug_joined, preempt_core, cpu_alloc_size, clear_set, new_set, thread_func,
}

-- A policy and a priority.
pub record SchedParam : Type 0 where
  pub policy : ℤ
  pub priority : ℤ

-- What the calls return: the ranges of priorities, whether a thread is created, what the thread
-- of `thread_func_preempt` reads of itself before and behind `pthread_setschedparam` (`none` where that fails),
-- and for `thread_func` its files, its number, and its string.
pub record Answers : Type 0 where
  pub priority_max : Policy → ℤ
  pub priority_min : Policy → ℤ
  pub created : Thread → Bool
  pub param_before : Option SchedParam
  pub setschedparam_returns : ℤ
  pub param_after : Option SchedParam
  pub files : ℕ → Files
  pub number : ℕ
  pub str : List ℕ

pub init_pid_env : Answers → Run Event (Unit {0})
init_pid_env a = do
  max ← ask (get_priority_max sched_other) (a.priority_max sched_other)
  min ← ask (get_priority_min sched_other) (a.priority_min sched_other)
  debug_print info debug_tid
  debug_print info (debug_preempt_core preempt_core)
  debug_print info (debug_range min max sched_other)
  max ← ask (get_priority_max sched_rr) (a.priority_max sched_rr)
  min ← ask (get_priority_min sched_rr) (a.priority_min sched_rr)
  debug_print info (debug_range min max sched_rr)

-- `pthread_getschedparam` into variables that keep what they hold where it fails.
read_param : SchedParam → Option SchedParam → Run Event SchedParam
read_param old none = ask getschedparam old
read_param old (some new) = ask getschedparam new

pub thread_func_preempt : Answers → Run Event (Unit {0})
unfolding new_set read_param
thread_func_preempt a = do
  call (attr_init preempt_thread)
  new_set
  call getaffinity
  debug_print info debug_cset
  call (cpu_set preempt_core)
  found ← read_param (record { policy = negsuc 0; priority = pos 99 }) a.param_before
  debug_print info (debug_policy found.policy found.priority)
  ret ← ask (setschedparam sched_rr (pos 99)) a.setschedparam_returns
  if is_zero ret
      then pure tt
      else do call perror_setschedparam; debug_print warn (debug_failed (pos 99))
  now ← read_param (record { policy = found.policy; priority = negsuc 0 }) a.param_after
  debug_print info (debug_priority now.priority)

-- A thread that was not created has no number: the variable is read uninitialised.
join : Thread → Bool → Run Event (Unit {0})
join thread created = if created then call (pthread_join thread) else oops

-- `main`, whose two sets of attributes are called by the threads they are for. The results of
-- `pthread_create`, and of the calls that set attributes, are not looked at.
pub main : Answers → Run Event ℤ
unfolding init_pid_env new_set clear_set join
main a = do
  init_pid_env a
  new_set
  call (cpu_set 1)
  call (attr_init func_thread)
  call (attr_setaffinity func_thread)
  call (pthread_create func_thread (a.created func_thread))
  call (sleep 2)
  call (attr_init preempt_thread)
  call (attr_setschedparam preempt_thread (pos 99))
  call (attr_setinheritsched preempt_thread)
  clear_set (cpu_alloc_size 8)
  call (cpu_set preempt_core)
  call (attr_setaffinity preempt_thread)
  call (pthread_create preempt_thread (a.created preempt_thread))
  join func_thread (a.created func_thread)
  join preempt_thread (a.created preempt_thread)
  debug_print info debug_joined
  call cpu_free
  call (attr_destroy func_thread)
  call (attr_destroy preempt_thread)
  pure (pos 0)

-- What a thread does when it is run on its own.
unfoldable pub calls_of : Answers → Thread → List Event
calls_of a Thread.main_thread = (main a).calls
calls_of a Thread.func_thread = (thread_func a.files a.number a.str).calls
calls_of a Thread.preempt_thread = (thread_func_preempt a).calls
