-- ===== src/Waitqueue/Unload.antt =====
-- The threads of waitqueue.c together with the thread that loads and unloads the module.
pub mod Calls
pub mod Kept
pub mod Whole
pub mod Drain
pub mod Can
pub mod Loads
pub mod Ends
mod Tests
pub mod Exits
use yu.Prelude.Update.{set}
use yu.Prelude.{
  ℕ, suc, ◌≡◌, ◌||◌, Bool, true, false, Option, none, some, List, [], ◌∷◌, ◌++◌, ◌==◌,
  if◌then◌else◌,
}
use yu.Prelude.Int.{ℤ}
use yu.Prelude.Trace.{Run, ◌>>=◌, run, after, and_then, done, fault}
use yu.KernelList.{KernelList}
use yu.Waitqueue.{
  WaitThread, Answers, Event, State, bookmark_wait_queue, kthread_create, wake_up_process,
  kthread_stop, add_wait_queue, thread_round, leave_queue, init_module_until_wait,
  init_module_after_wait, cleanup_module,
}

-- Where the task at an address stands, with the index that it is given: `looping` has made its rounds
-- so far, and `exited` is for good.
pub data Thread : Type 0 where
  absent : Thread
  created : ℕ → Thread
  ready : ℕ → Thread
  looping : ℕ → ℕ → Thread
  leaving : ℕ → ℕ → Thread
  exited : ℕ → Thread

-- A thread that is woken for the first time is to run; later it makes no difference to its calls.
abbrev pub wake : Thread → Thread
wake (created i) = ready i
wake t = t

-- What a call of the loading thread does to the others.
pub data Effect : Type 0 where
  plain : Effect
  creates : ℕ → ℕ → Effect
  wakes stops : ℕ → Effect

abbrev pub effect : Event → Effect
effect (kthread_create i (some p)) = creates i p
effect (wake_up_process p) = wakes p
effect (kthread_stop p) = stops p
effect _ = plain

-- The calls that the loading thread has left, the threads that are told to stop, the threads, and the
-- calls that each has made.
pub record World : Type 0 where
  pub left : List Event
  pub told : ℕ → Bool
  pub threads : ℕ → Thread
  pub made : ℕ → List Event

abbrev pub world : List Event → (ℕ → Bool) → (ℕ → Thread) → (ℕ → List Event) → World
world es told threads made = record { left = es; told = told; threads = threads; made = made }

-- `kthread_create` returns a task that there was not. `kthread_stop` tells its thread to stop, wakes
-- it, and returns once it has exited; a thread that is told before it runs exits without a call of
-- its function. The rounds of a thread are whole, since of all its calls only the test at the end of
-- a round depends on what others do.
pub data Step : World → World → Type 0 where
  loader_calls :
      {e : Event} {es : List Event} {b : ℕ → Bool} {t : ℕ → Thread} {m : ℕ → List Event}
      → effect e ≡ plain
      → Step (world (e ∷ es) b t m) (world es b t m)
  loader_creates :
      {e : Event} {es : List Event} {b : ℕ → Bool} {t : ℕ → Thread} {m : ℕ → List Event} {i p : ℕ}
      → effect e ≡ creates i p
      → t p ≡ absent
      → Step (world (e ∷ es) b t m) (world es b (set t p (created i)) m)
  loader_wakes :
      {e : Event} {es : List Event} {b : ℕ → Bool} {t : ℕ → Thread} {m : ℕ → List Event} {p : ℕ}
      → effect e ≡ wakes p
      → Step (world (e ∷ es) b t m) (world es b (set t p (wake (t p))) m)
  loader_tells :
      {e : Event} {es : List Event} {b : ℕ → Bool} {t : ℕ → Thread} {m : ℕ → List Event} {p : ℕ}
      → effect e ≡ stops p
      → Step (world (e ∷ es) b t m) (world (e ∷ es) (set b p true) (set t p (wake (t p))) m)
  loader_joins :
      {e : Event} {es : List Event} {b : ℕ → Bool} {t : ℕ → Thread} {m : ℕ → List Event} {i p : ℕ}
      → effect e ≡ stops p
      → b p ≡ true
      → t p ≡ exited i
      → Step (world (e ∷ es) b t m) (world es b t m)
  thread_enters :
      {es : List Event} {b : ℕ → Bool} {t : ℕ → Thread} {m : ℕ → List Event} (p i : ℕ)
      → t p ≡ ready i
      → b p ≡ false
      → Step
          (world es b t m)
          (world es b (set t p (looping i 0)) (set m p (add_wait_queue bookmark_wait_queue ∷ [])))
  thread_skips :
      {es : List Event} {b : ℕ → Bool} {t : ℕ → Thread} {m : ℕ → List Event} (p i : ℕ)
      → t p ≡ ready i
      → b p ≡ true
      → Step (world es b t m) (world es b (set t p (exited i)) m)
  thread_rounds :
      {es : List Event} {b : ℕ → Bool} {t : ℕ → Thread} {m : ℕ → List Event} {told : Bool}
      (p i n : ℕ)
      → t p ≡ looping i n
      → (thread_round i (b p)).outcome ≡ done told
      → Step (world es b t m) (
          world es b
            (set t p (if told then leaving i (suc n) else looping i (suc n)))
            (set m p (m p ++ (thread_round i (b p)).calls)))
  thread_leaves :
      {es : List Event} {b : ℕ → Bool} {t : ℕ → Thread} {m : ℕ → List Event} (p i n : ℕ)
      → t p ≡ leaving i n
      → Step
          (world es b t m)
          (world es b (set t p (exited i)) (set m p (m p ++ (leave_queue (some tt)).calls)))

infixl 5 ◌then◌
pub data Reach (w : World) : World → Type 0 where
  here : Reach w w
  ◌then◌ : {v u : World} → Reach w v → Step v u → Reach w u

module _ (list : KernelList WaitThread) where
  -- What the loading thread does, the wait for the work item being one of its calls.
  pub load_and_unload : Answers → State list → Run Event (State list)
  load_and_unload a s = do
    s' ← init_module_until_wait list a s
    (s'', r) ← init_module_after_wait list s'
    cleanup_module list s''

  abbrev pub start : Answers → State list → World
  start a s = world (load_and_unload a s).calls (λ p. false) (λ p. absent) (λ p. [])
