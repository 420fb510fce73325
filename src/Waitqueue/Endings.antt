-- ===== src/Waitqueue/Endings.antt =====
-- How the loading of waitqueue.c can end.
use mathlib.Core.Path.{subst}
use yu.Prelude.{◌≡◌, refl, sym, Bool, true, false, List, [], ◌∷◌, ◌++◌, if◌then◌else◌, arith}
use yu.Prelude.Int.{pos}
use yu.Prelude.Trace.{Outcome, Run, run, and_then, done, fault}
use yu.KernelList.{KernelList}
use yu.Waitqueue.{
  WaitThread, Answers, Event, State, start_waitqueue_test, my_workqueue_handler,
  init_module_until_wait, init_work, schedule_work, say_sleeping, wait_event_interruptible,
  waker_wait_queue, init_module_after_wait,
}
use yu.Waitqueue.Stop.{Noded, start_loop-Starts, cleanup_module-Cleans}
use yu.Waitqueue.Load.{
  Phase, starting, waiting, unloaded, returned, Work, unscheduled, scheduled, finished, World, Step,
  start, sleep, handle, wake, interrupt, unload, Reach, here, ◌then◌, loaded, any, is_schedule,
  schedule,
}
use yu.Waitqueue.Waits.{handled}

module _ (list : KernelList WaitThread) where
  -- A thread that waits for a work item that has run is awake, and finds its condition.
  Stands : Phase → Work → State list → Bool → Type 0
  Stands waiting unscheduled s k = ⊥
  Stands waiting scheduled s k = Unit {0}
  Stands waiting finished s k = (s.stop ≡ 1) × (k ≡ true)
  Stands _ w s k = Unit {0}

  IsReady : World list → Type 0
  IsReady w = Stands w.phase w.work w.memory w.awake

  any-append : (f : Event → Bool) (es fs : List Event) → any f fs ≡ true → any f (es ++ fs) ≡ true
  any-append f [] fs h = h
  any-append f (e ∷ es) fs h = ground (arith, any-append f es fs h)

  any-then :
      (f : Event → Bool) (es : List Event) (o : Outcome (State list))
      (k : State list → Run Event (State list)) (s' : State list)
      → ((s : State list) → any f (k s).calls ≡ true)
      → (and_then es o k).outcome ≡ done s'
      → any f (and_then es o k).calls ≡ true
  any-then f es (done s) k s' h e = any-append f es (k s).calls (h s)
  any-then f es fault k s' h e = absurd (cc)

  init_module-schedule :
      (a : Answers) (s s' : State list) (w : Work)
      → (init_module_until_wait list a s).outcome ≡ done s'
      → schedule (init_module_until_wait list a s).calls w ≡ scheduled
  unfolding init_module_until_wait
  init_module-schedule a s s' w e =
      let some_ : any is_schedule (init_module_until_wait list a s).calls ≡ true =
        any-then is_schedule (start_waitqueue_test list a s).calls
          (start_waitqueue_test list a s).outcome
          (λ t.
            run
              (init_work
                ∷ schedule_work
                ∷ say_sleeping
                ∷ wait_event_interruptible waker_wait_queue
                ∷ [])
              (done t))
          s' (λ t. refl) e in
      rw some_ refl

  Step-IsReady : {a : Answers} {w v : World list} → Step list a w v → IsReady w → IsReady v
  unfolding IsReady Stands my_workqueue_handler
  Step-IsReady {a} (start {s} {s'} {w} e) h =
      subst (λ v. Stands waiting v s' true) (sym (init_module-schedule a s s' w e)) tt
  Step-IsReady (sleep {w = unscheduled} asleep) h = h
  Step-IsReady (sleep {w = scheduled} asleep) h = tt
  Step-IsReady (sleep {w = finished} asleep) h = absurd (asleep h.0)
  Step-IsReady (handle {s = s} {s' = s'} {p = waiting} e) h = (handled list s s' e, ground arith)
  Step-IsReady (handle {p = starting} e) h = tt
  Step-IsReady (handle {p = returned r} e) h = tt
  Step-IsReady (handle {p = unloaded} e) h = tt
  Step-IsReady (wake told e) h = tt
  Step-IsReady (interrupt e) h = tt
  Step-IsReady (unload e) h = tt

  Reach-IsReady : {a : Answers} {w v : World list} → Reach list a w v → IsReady w → IsReady v
  Reach-IsReady here h = h
  Reach-IsReady (r then st) h = Step-IsReady st (Reach-IsReady r h)

  Returns : Answers → World list → Type 0
  Returns a w =
      (v : World list) × Reach list a w v
      × (v.phase ≡ returned (pos 0))
      × (v.signalled ≡ w.signalled)
      × (v.work ≡ finished)

  go_on :
      (a : Answers) (w : Work) (s : State list) (b k : Bool)
      → Stands waiting w s k
      → Returns a (record { memory = s; phase = waiting; work = w; signalled = b; awake = k })
  unfolding Stands Returns my_workqueue_handler init_module_after_wait
  go_on a unscheduled s b k h = absurd h
  go_on a scheduled s b true h = (_, here then handle refl then wake refl refl, refl, refl, refl)
  go_on a scheduled s b false h = (_, here then handle refl then wake refl refl, refl, refl, refl)
  go_on a finished s b true h = (_, here then wake h.0 refl, refl, refl, refl)
  go_on a finished s b false h = absurd (ground (arith, h.1))

  go_on_at :
      (a : Answers) (p : Phase) (w : Work) (s : State list) (b k : Bool)
      → p ≡ waiting
      → Stands p w s k
      → Returns a (record { memory = s; phase = p; work = w; signalled = b; awake = k })
  go_on_at a waiting w s b k e h = go_on a w s b k h
  go_on_at a starting w s b k e h = absurd (cc)
  go_on_at a unloaded w s b k e h = absurd (cc)
  go_on_at a (returned r) w s b k e h = absurd (cc)

  go_on_from : (a : Answers) (w : World list) → w.phase ≡ waiting → IsReady w → Returns a w
  unfolding IsReady
  go_on_from a w at h = go_on_at a w.phase w.work w.memory w.signalled w.awake at h

  -- With a node for each thread that is created: wherever `init_module` waits, whether it sleeps or is
  -- about to, it can go on without a further signal to where it has returned 0 and the work item has
  -- run. And after a signal the module can be unloaded while its work item, with its handler in the
  -- module, is still to run.
  pub init_module_endings :
      (a : Answers) (s : State list) (w : World list)
      → Noded 80 0 a
      → Reach list a (loaded list s) w
      → w.phase ≡ waiting
      → ((v : World list) × Reach list a w v
          × (v.phase ≡ returned (pos 0))
          × (v.signalled ≡ w.signalled)
          × (v.work ≡ finished))
        × ((v : World list) × Reach list a (loaded list s) v
            × (v.phase ≡ unloaded)
            × (v.work ≡ scheduled))
  unfolding init_module_until_wait start_waitqueue_test init_module_after_wait IsReady Stands
      Returns
  init_module_endings a s w h reach at =
      let f = start_loop-Starts list 80 0 a s h in
      let asleep : (init_module_until_wait list a s).outcome ≡ done f.end = simp f.ended refl in
      let c = cleanup_module-Cleans list f.end in
      (
        go_on_from a w at (Reach-IsReady reach tt),
        (
          _,
          here then start asleep then interrupt refl then unload c.ended,
          refl,
          init_module-schedule a s f.end unscheduled asleep,
        ),
      )
