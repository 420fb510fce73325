-- ===== src/Waitqueue/Threads.antt =====
-- One thread of waitqueue.c: when it leaves its loop, and what it leaves on the wait queue.
use yu.Prelude.Calls.{count-append, count}
use yu.Prelude.{
  ℕ, zero, suc, ◌+◌, ◌<◌, ◌≡◌, refl, ap, Bool, true, false, Option, some, List, [], ◌∷◌, arith,
}
use yu.Prelude.Int.{pos}
use yu.Prelude.Trace.{Run, done}
use yu.Waitqueue.{
  Event, add_wait_queue, remove_wait_queue, schedule_timeout, thread_loop, leave_queue,
  wait_queue_test_thread,
}

abbrev pub is_add : Event → Bool
is_add (add_wait_queue q) = true
is_add _ = false

abbrev pub adds : List Event → ℕ
adds = count is_add

abbrev pub is_remove : Event → Bool
is_remove (remove_wait_queue q) = true
is_remove _ = false

abbrev pub removes : List Event → ℕ
removes = count is_remove

abbrev pub is_sleep : Event → Bool
is_sleep (schedule_timeout n) = true
is_sleep _ = false

abbrev pub sleeps : List Event → ℕ
sleeps = count is_sleep

-- Round `i + k` is the first, from `i` on, in which the thread is told to stop.
abbrev pub FirstStop : ℕ → ℕ → (ℕ → Bool) → Type 0
FirstStop zero i should_stop = should_stop i ≡ true
FirstStop (suc k) i should_stop = (should_stop i ≡ false) × FirstStop k (i + 1) should_stop

pub record Leaves (r : Run Event (Option (Unit {0}))) (rounds : ℕ) : Type 0 where
  pub ended : r.outcome ≡ done (some tt)
  added : adds r.calls ≡ 0
  removed : removes r.calls ≡ 0
  slept : sleeps r.calls ≡ rounds

pub thread_loop-Leaves :
    (k fuel index i : ℕ) (should_stop : ℕ → Bool)
    → FirstStop k i should_stop
    → k < fuel
    → Leaves (thread_loop fuel index should_stop i) (suc k)
unfolding thread_loop
thread_loop-Leaves k zero index i should_stop f h = absurd (omega arith)
thread_loop-Leaves zero (suc fuel) index i should_stop f h =
    rw f (record { ended = refl; added = refl; removed = refl; slept = refl })
thread_loop-Leaves (suc k) (suc fuel) index i should_stop f h =
    let rest = thread_loop-Leaves k fuel index (i + 1) should_stop f.1 (omega arith) in
    rw f.0 (record {
      ended = rest.ended;
      added = rest.added;
      removed = rest.removed;
      slept = ap suc rest.slept;
    })

-- A thread that is first told to stop in round `k` ends, given more than `k` rounds, with 0: it has
-- slept `k + 1` times, and has left the wait queue as often as it has entered it, once.
pub wait_queue_test_thread_ends :
    (k fuel index : ℕ) (should_stop : ℕ → Bool)
    → FirstStop k 0 should_stop
    → k < fuel
    → let r = wait_queue_test_thread fuel index should_stop in
      (r.outcome ≡ done (some (pos 0)))
      × (sleeps r.calls ≡ suc k)
      × (adds r.calls ≡ 1)
      × (removes r.calls ≡ 1)
unfolding wait_queue_test_thread leave_queue
wait_queue_test_thread_ends k fuel index should_stop f h =
    let l = thread_loop-Leaves k fuel index 0 should_stop f h in
    let es = (thread_loop fuel index should_stop 0).calls in
    rw l.ended (
      refl,
      omega (arith, count-append is_sleep es (remove_wait_queue _ ∷ []), l.slept),
      omega (arith, count-append is_add es (remove_wait_queue _ ∷ []), l.added),
      omega (arith, count-append is_remove es (remove_wait_queue _ ∷ []), l.removed),
    )
