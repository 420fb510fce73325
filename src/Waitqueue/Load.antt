-- ===== src/Waitqueue/Load.antt =====
-- The loading of waitqueue.c: `init_module` sleeps until the work item has run, or a signal comes.
use yu.Prelude.{◌≡◌, ◌≢◌, Bool, true, false, ◌||◌, List, [], ◌∷◌, if◌then◌else◌}
use yu.Prelude.Int.{ℤ, pos}
use yu.Prelude.Trace.{done}
use yu.KernelList.{KernelList}
use yu.Waitqueue.{
  WaitThread, Answers, Event, schedule_work, wake_up_interruptible, waker_wait_queue, State,
  my_workqueue_handler, init_module_until_wait, init_module_after_wait, cleanup_module,
}

-- Where the module stands, from its loading to its unloading, and where its work item stands.
pub data Phase : Type 0 where
  starting waiting unloaded : Phase
  returned : ℤ → Phase

pub data Work : Type 0 where
  unscheduled scheduled finished : Work

abbrev pub any : (Event → Bool) → List Event → Bool
any f [] = false
any f (e ∷ es) = f e || any f es

-- What the calls do to the work item, and whether they wake the thread that waits.
abbrev pub is_schedule : Event → Bool
is_schedule schedule_work = true
is_schedule _ = false

abbrev pub schedule : List Event → Work → Work
schedule es w = if any is_schedule es then scheduled else w

abbrev pub is_wake_up : Event → Bool
is_wake_up (wake_up_interruptible waker_wait_queue) = true
is_wake_up _ = false

module _ (list : KernelList WaitThread) where
  -- `awake`: the thread that loads the module runs, and has not to be woken.
  pub record World : Type 0 where
    pub memory : State list
    pub phase : Phase
    pub work : Work
    pub signalled : Bool
    pub awake : Bool

  -- `wait_event_interruptible` tests its condition, and sleeps if that does not hold until it is woken,
  -- to test it again; a signal ends it, and the code does not look which it was. The work item runs at
  -- any time from its scheduling on, and so does a module that is unloaded not wait for it.
  pub data Step (a : Answers) : World → World → Type 0 where
    start :
        {s s' : State list} {w : Work} {b : Bool}
        → (init_module_until_wait list a s).outcome ≡ done s'
        → Step a
            (record { memory = s; phase = starting; work = w; signalled = b; awake = true })
            (record {
              memory = s';
              phase = waiting;
              work = schedule (init_module_until_wait list a s).calls w;
              signalled = b;
              awake = true;
            })
    sleep :
        {s : State list} {w : Work} {b : Bool}
        → s.stop ≢ 1
        → Step a
            (record { memory = s; phase = waiting; work = w; signalled = b; awake = true })
            (record { memory = s; phase = waiting; work = w; signalled = b; awake = false })
    handle :
        {s s' : State list} {p : Phase} {b k : Bool}
        → (my_workqueue_handler list s).outcome ≡ done s'
        → Step a
            (record { memory = s; phase = p; work = scheduled; signalled = b; awake = k })
            (record {
              memory = s';
              phase = p;
              work = finished;
              signalled = b;
              awake = k || any is_wake_up (my_workqueue_handler list s).calls;
            })
    wake :
        {s s' : State list} {r : ℤ} {w : Work} {b : Bool}
        → s.stop ≡ 1
        → (init_module_after_wait list s).outcome ≡ done (s', r)
        → Step a
            (record { memory = s; phase = waiting; work = w; signalled = b; awake = true })
            (record { memory = s'; phase = returned r; work = w; signalled = b; awake = true })
    interrupt :
        {s s' : State list} {r : ℤ} {w : Work} {b k : Bool}
        → (init_module_after_wait list s).outcome ≡ done (s', r)
        → Step a
            (record { memory = s; phase = waiting; work = w; signalled = b; awake = k })
            (record { memory = s'; phase = returned r; work = w; signalled = true; awake = true })
    unload :
        {s s' : State list} {w : Work} {b k : Bool}
        → (cleanup_module list s).outcome ≡ done s'
        → Step a
            (record { memory = s; phase = returned (pos 0); work = w; signalled = b; awake = k })
            (record { memory = s'; phase = unloaded; work = w; signalled = b; awake = k })

  infixl 5 ◌then◌
  pub data Reach (a : Answers) (w : World) : World → Type 0 where
    here : Reach a w w
    ◌then◌ : {v u : World} → Reach a w v → Step a v u → Reach a w u

  -- The module as it is loaded.
  abbrev pub loaded : State list → World
  loaded s = record {
    memory = s;
    phase = starting;
    work = unscheduled;
    signalled = false;
    awake = true;
  }
