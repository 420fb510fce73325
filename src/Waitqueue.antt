-- ===== src/Waitqueue.antt =====
-- kmods/waitqueue_bookmark/waitqueue.c: starts eighty threads that sleep on a wait queue, waits for a
-- work item, and stops the threads when it is unloaded.
pub mod Threads
pub mod Stop
pub mod Load
pub mod Waits
pub mod Endings
pub mod Unload
mod Tests
use yu.Prelude.{
  ℕ, zero, suc, ◌+◌, Bool, true, false, Option, none, some, List, [], ◌∷◌, ◌==◌, if◌then◌else◌,
}
use yu.Prelude.Int.{ℤ, pos}
use yu.Prelude.Trace.{Run, ◌>>=◌, ◌>>◌, pure, call, oops, run, after, and_then, done, fault}
use yu.KernelList.{KernelList}

-- A `struct wait_thread`: its own address, and its field `p`.
pub record WaitThread : Type 0 where
  pub address : ℕ
  pub p : ℕ

-- What `kthread_create` (`none` is an error pointer) and `kmalloc` return in each round.
pub record Answers : Type 0 where
  pub kthread_create : ℕ → Option ℕ
  pub kmalloc : ℕ → ℕ

pub data Queue : Type 0 where
  bookmark_wait_queue waker_wait_queue : Queue

pub data Event : Type 0 where
  say_creating : ℕ → Event
  kthread_create : ℕ → Option ℕ → Event
  kmalloc : ℕ → Event
  wake_up_process : ℕ → Event
  warn_on : Event
  say_freeing : ℕ → ℕ → Event
  kthread_stop : ℕ → Event
  kfree : ℕ → Event
  say_testing say_sleeping say_woken say_cleanup say_stopping : Event
  init_waitqueue_head : Queue → Event
  init_work schedule_work : Event
  wait_event_interruptible : Queue → Event
  wake_up_interruptible : Queue → Event
  msleep : ℕ → Event
  add_wait_queue : Queue → Event
  set_interruptible : Event
  schedule_timeout : ℕ → Event
  say_thread_woken : ℕ → Event
  remove_wait_queue : Queue → Event

abbrev pub num_threads : ℕ
num_threads = 80

-- One round of the loop of a thread, with what `kthread_should_stop` returns at its end. (`HZ*10` is
-- ten seconds.)
pub thread_round : ℕ → Bool → Run Event Bool
thread_round index should_stop = do
  call set_interruptible
  call (schedule_timeout 10)
  call (say_thread_woken index)
  pure should_stop

-- The loop from its round `i` on: `should_stop` is what `kthread_should_stop` returns in each round.
-- `none` after `fuel` rounds that did not end it.
pub thread_loop : ℕ → ℕ → (ℕ → Bool) → ℕ → Run Event (Option (Unit {0}))
unfolding thread_round
thread_loop zero index should_stop i = pure none
thread_loop (suc fuel) index should_stop i =
    let rest = thread_loop fuel index should_stop (i + 1) in
    do told ← thread_round index (should_stop i); if told then pure (some tt) else rest

-- What follows the loop, if that ends.
pub leave_queue : Option (Unit {0}) → Run Event (Option ℤ)
leave_queue none = pure none
leave_queue (some u) = call (remove_wait_queue bookmark_wait_queue) >> pure (some (pos 0))

pub wait_queue_test_thread : ℕ → ℕ → (ℕ → Bool) → Run Event (Option ℤ)
wait_queue_test_thread fuel index should_stop = do
  call (add_wait_queue bookmark_wait_queue)
  ended ← thread_loop fuel index should_stop 0
  leave_queue ended

module _ (list : KernelList WaitThread) where
  open list use {Head, list_add, entries}

  -- The variables of the module. `finish_test` is set and never read.
  pub record State : Type 0 where
    pub finish_test : ℕ
    pub stop : ℕ
    pub wait_threads_list : Head

  -- The rest of the loop from index `i` on. A null node is written to, which faults.
  pub start_loop : ℕ → ℕ → Answers → State → Run Event State
  start_loop zero i a s = pure s
  start_loop (suc left) i a s =
      let node = a.kmalloc i in
      let skip = start_loop left (i + 1) a s in
      let keep = λ (p : ℕ). start_loop left (i + 1) a (record s {
        wait_threads_list = list_add (record { address = node; p = p }) s.wait_threads_list;
      }) in
      do
        call (kthread_create i (a.kthread_create i))
        elim (a.kthread_create i) [
          | none ↦ call warn_on >> skip
          | some p ↦
              call (kmalloc node)
              >> (if node == 0 then oops else (call (wake_up_process p) >> keep p))
        ]

  pub start_waitqueue_test : Answers → State → Run Event State
  start_waitqueue_test a s = call (say_creating num_threads) >> start_loop num_threads 0 a s

  stop_loop : ℕ → List WaitThread → Run Event (Unit {0})
  stop_loop i [] = pure tt
  stop_loop i (entry ∷ rest) = do
    call (say_freeing i entry.p)
    call (kthread_stop entry.p)
    call (wake_up_process entry.p)
    call (kfree entry.address)
    stop_loop (i + 1) rest

  pub stop_test_threads : State → Run Event State
  stop_test_threads s =
      let s' = record s { finish_test = 1 } in stop_loop 0 (entries s'.wait_threads_list) >> pure s'

  -- The assignment stands between the two calls, where no call sees it.
  pub my_workqueue_handler : State → Run Event State
  my_workqueue_handler s =
      let s' = record s { stop = 1 } in
      do call (msleep 5000); call (wake_up_interruptible waker_wait_queue); pure s'

  -- Up to the wait, and behind it; what runs in between is in `Load`.
  pub init_module_until_wait : Answers → State → Run Event State
  unfolding start_waitqueue_test
  init_module_until_wait a s = do
    call say_testing
    call (init_waitqueue_head bookmark_wait_queue)
    call (init_waitqueue_head waker_wait_queue)
    s' ← start_waitqueue_test a s
    call init_work
    call schedule_work
    call say_sleeping
    call (wait_event_interruptible waker_wait_queue)
    pure s'

  pub init_module_after_wait : State → Run Event (State × ℤ)
  init_module_after_wait s = do
    call say_woken
    call (wake_up_interruptible bookmark_wait_queue)
    pure (s, pos 0)

  pub cleanup_module : State → Run Event State
  unfolding stop_test_threads
  cleanup_module s = do call say_cleanup; call say_stopping; stop_test_threads s
