-- ===== src/HungTask.antt =====
-- kmods/hung_task/hung_task.c: a module whose initialisation hangs on a mutex that it holds itself,
-- until a timer releases it.
pub mod Time
pub mod Hang
pub mod Exit
mod Tests
use yu.Prelude.{
  ℕ, zero, suc, ◌+◌, ◌/◌, Bool, true, false, Option, none, some, List, [], ◌∷◌, if◌then◌else◌,
}
use yu.Prelude.Int.{ℤ, pos, negsuc, sub_ℕ}
use yu.Prelude.Trace.{Run, ◌>>=◌, ◌>>◌, pure, call, run, after, and_then, done, fault}
use yu.KernelSync.{KernelSync}

pub data Event : Type 0 where
  say_alarm say_release say_loading say_taking say_start : Event
  mutex_init mutex_lock mutex_unlock : Event
  hrtimer_init hrtimer_start : Event
  hrtimer_active : Bool → Event
  hrtimer_get_remaining : ℤ → Event
  say_remaining : ℤ → Event
  say_done say_unloading : Event

pub data HrtimerRestart : Type 0 where
  norestart restart : HrtimerRestart

-- C's division of a signed number by a positive one.
abbrev pub quotient : ℤ → ℕ → ℤ
quotient (pos n) d = pos (n / d)
quotient (negsuc n) d = sub_ℕ 0 (suc n / d)

-- The rest of the loop of `exit_hung_task_test` from its round `i` on: what the two calls return in
-- each round. `none` after `fuel` rounds that did not end it.
wait_loop : ℕ → ℕ → (ℕ → Bool) → (ℕ → ℤ) → Run Event (Option (Unit {0}))
wait_loop zero i active remaining = pure none
wait_loop (suc fuel) i active remaining =
    let rest = wait_loop fuel (i + 1) active remaining in
    do
      call (hrtimer_active (active i))
      if active i
          then (do
            call (hrtimer_get_remaining (remaining i))
            call (say_remaining (quotient (remaining i) 1000000000))
            rest)
          else pure (some tt)

say_goodbye : Option (Unit {0}) → Run Event (Option (Unit {0}))
say_goodbye none = pure none
say_goodbye (some u) = call say_done >> call say_unloading >> pure (some tt)

pub exit_hung_task_test : ℕ → (ℕ → Bool) → (ℕ → ℤ) → Run Event (Option (Unit {0}))
exit_hung_task_test fuel active remaining = do
  ended ← wait_loop fuel 0 active remaining
  say_goodbye ended

module _ (sync : KernelSync) where
  open sync use {Mutex, Timer, ktime_set}

  -- The `struct test_hung_task_data`.
  pub record TestData : Type 0 where
    pub dead_lock : Mutex
    pub hrtimer_release_mutex : Timer

  pub test_hrtimer_free_mutex_func : TestData → Run Event (TestData × HrtimerRestart)
  test_hrtimer_free_mutex_func td = do
    call say_alarm
    call say_release
    call mutex_unlock
    pure (record td { dead_lock = sync.mutex_unlock td.dead_lock }, norestart)

  -- `init_hung_task_test` at the time `now`, up to the call of `mutex_lock` at its end: the first
  -- finds the mutex free.
  pub init_until_lock : ℕ → TestData → Run Event TestData
  init_until_lock now td =
      let ktime = ktime_set 20 0 in
      do
        call say_loading
        call say_taking
        call mutex_init
        call mutex_lock
        call say_start
        call hrtimer_init
        call hrtimer_start
        pure (record {
          dead_lock = sync.mutex_lock sync.mutex_init;
          hrtimer_release_mutex = sync.hrtimer_start sync.hrtimer_init now ktime;
        })

  -- That call, once the mutex is free, and the return.
  pub init_from_lock : TestData → Run Event (TestData × ℤ)
  init_from_lock td = do
    call mutex_lock
    pure (record td { dead_lock = sync.mutex_lock td.dead_lock }, pos 0)
