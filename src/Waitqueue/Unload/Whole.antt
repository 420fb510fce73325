-- ===== src/Waitqueue/Unload/Whole.antt =====
-- The calls of a whole run of a thread of waitqueue.c.
use yu.Prelude.{ℕ, zero, suc, ◌+◌, ◌<◌, ◌≡◌, refl, ap, Bool, ◌∷◌, ◌==◌, arith}
use yu.Waitqueue.{
  set_interruptible, schedule_timeout, say_thread_woken, thread_loop, leave_queue,
  wait_queue_test_thread,
}
use yu.Waitqueue.Threads.{FirstStop, thread_loop-Leaves}
use yu.Waitqueue.Unload.Kept.{rounds, whole}

-- A thread that is told to stop in one round.
pub told_in_round : (d c n : ℕ) → n ≡ c + d → FirstStop d c (λ j. j == n)
told_in_round zero c n h = ground arith
told_in_round (suc d) c n h = (ground arith, told_in_round d (c + 1) n (omega arith))

module _ (index : ℕ) (should_stop : ℕ → Bool) where
  thread_loop-rounds :
      (k fuel i : ℕ)
      → FirstStop k i should_stop
      → k < fuel
      → (thread_loop fuel index should_stop i).calls ≡ rounds index (suc k)
  unfolding thread_loop
  thread_loop-rounds k zero i f h = absurd (omega arith)
  thread_loop-rounds zero (suc fuel) i f h = rw f refl
  thread_loop-rounds (suc k) (suc fuel) i f h =
      let rest = thread_loop-rounds k fuel (i + 1) f.1 (omega arith) in
      rw f.0 (ap (λ es. set_interruptible ∷ schedule_timeout 10 ∷ say_thread_woken index ∷ es) rest)

  pub wait_queue_test_thread-whole :
      (k fuel : ℕ)
      → FirstStop k 0 should_stop
      → k < fuel
      → (wait_queue_test_thread fuel index should_stop).calls ≡ whole index k
  unfolding wait_queue_test_thread leave_queue
  wait_queue_test_thread-whole k fuel f h =
      rw
        ((thread_loop-Leaves k fuel index 0 should_stop f h).ended, thread_loop-rounds k fuel 0 f h)
        refl
