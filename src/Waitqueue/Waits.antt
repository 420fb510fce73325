-- ===== src/Waitqueue/Waits.antt =====
-- When `init_module` of waitqueue.c returns: an invariant of its loading.
use mathlib.Core.Path.{subst}
use yu.Prelude.{
  ℕ, zero, suc, ◌+◌, ◌≡◌, refl, sym, ◌∙◌, ◌⊎◌, inl, inr, Bool, true, List, [], ◌∷◌, ◌==◌,
  Bool-cases, Option-cases, arith,
}
use yu.Prelude.Int.{ℤ, pos}
use yu.Prelude.Trace.{Outcome, Run, and_then, run, done, fault}
use yu.KernelList.{KernelList}
use yu.Waitqueue.{
  WaitThread, Answers, State, Event, num_threads, start_loop, start_waitqueue_test, init_work,
  schedule_work, say_sleeping, wait_event_interruptible, waker_wait_queue, my_workqueue_handler,
  init_module_until_wait, init_module_after_wait,
}
use yu.Waitqueue.Stop.{cleanup_module-Cleans}
use yu.Waitqueue.Load.{
  Phase, starting, waiting, unloaded, returned, Work, unscheduled, scheduled, finished, World, Step,
  start, sleep, handle, wake, any, is_schedule, schedule, interrupt, unload, Reach, here, ◌then◌,
  loaded,
}

module _ (list : KernelList WaitThread) where
  open list use {list_add, entries}

  -- A run that ends leaves `stop` at `n`.
  abbrev pub EndsWithStop : ℕ → Outcome (State list) → Type 0
  EndsWithStop n (done s) = s.stop ≡ n
  EndsWithStop n fault = Unit {0}

  start_loop-EndsWithStop :
      (left i : ℕ) (a : Answers) (s : State list)
      → EndsWithStop s.stop (start_loop list left i a s).outcome
  unfolding start_loop
  start_loop-EndsWithStop zero i a s = refl
  start_loop-EndsWithStop (suc left) i a s = elim (Option-cases (a.kthread_create i)) [
    | inl gone ↦ simp gone (start_loop-EndsWithStop left (i + 1) a s)
    | inr (p, got) ↦
        let entry : WaitThread = record { address = a.kmalloc i; p = p } in
        let t : State list = record s { wait_threads_list = list_add entry s.wait_threads_list } in
        elim (Bool-cases (a.kmalloc i == 0)) [
          | inl no_node ↦ simp (got, no_node) tt
          | inr node ↦ simp (got, node) (start_loop-EndsWithStop left (i + 1) a t)
        ]
  ]

  EndsWithStop-then :
      (n : ℕ) (es : List Event) (o : Outcome (State list)) (k : State list → Run Event (State list))
      → ((s : State list) → (k s).outcome ≡ done s)
      → EndsWithStop n o
      → EndsWithStop n (and_then es o k).outcome
  EndsWithStop-then n es (done s) k h e = subst (EndsWithStop n) (sym (h s)) e
  EndsWithStop-then n es fault k h e = tt

  init_module-EndsWithStop :
      (a : Answers) (s : State list) → EndsWithStop s.stop (init_module_until_wait list a s).outcome
  unfolding init_module_until_wait start_waitqueue_test
  init_module-EndsWithStop a s =
      EndsWithStop-then s.stop (start_waitqueue_test list a s).calls
        (start_loop list num_threads 0 a s).outcome
        (λ t.
          run
            (init_work
              ∷ schedule_work
              ∷ say_sleeping
              ∷ wait_event_interruptible waker_wait_queue
              ∷ [])
            (done t))
        (λ t. refl) (start_loop-EndsWithStop num_threads 0 a s)

  -- `stop` is set exactly when the work item has run.
  Told : Work → State list → Type 0
  Told unscheduled s = s.stop ≡ 0
  Told scheduled s = s.stop ≡ 0
  Told finished s = s.stop ≡ 1

  Excused : Work → Bool → Type 0
  Excused w b = (b ≡ true) ⊎ (w ≡ finished)

  Placed : Phase → Work → Bool → Type 0
  Placed starting w b = w ≡ unscheduled
  Placed waiting w b = Unit {0}
  Placed (returned r) w b = (r ≡ pos 0) × Excused w b
  Placed unloaded w b = Excused w b

  IsSound : World list → Type 0
  IsSound w = Told w.work w.memory × Placed w.phase w.work w.signalled

  Told-schedule :
      (es : List Event) (w : Work) (s : State list)
      → w ≡ unscheduled
      → s.stop ≡ 0
      → Told (schedule es w) s
  unfolding Told
  Told-schedule es w s new e = elim (Bool-cases (any is_schedule es)) [
    | inl yes_ ↦ rw yes_ e
    | inr no_ ↦ rw (no_, new) e
  ]

  Told-finished : (w : Work) (s : State list) → Told w s → s.stop ≡ 1 → w ≡ finished
  unfolding Told
  Told-finished unscheduled s t e = absurd (omega (arith, t, e))
  Told-finished scheduled s t e = absurd (omega (arith, t, e))
  Told-finished finished s t e = refl

  Told-same : (w : Work) (s s' : State list) → s'.stop ≡ s.stop → Told w s → Told w s'
  unfolding Told
  Told-same unscheduled s s' e t = e ∙ t
  Told-same scheduled s s' e t = e ∙ t
  Told-same finished s s' e t = e ∙ t

  -- A work item that is scheduled runs.
  Placed-finished : (p : Phase) (b : Bool) → Placed p scheduled b → Placed p finished b
  unfolding Placed Excused
  Placed-finished starting b h = absurd (grind arith)
  Placed-finished waiting b h = tt
  Placed-finished (returned r) b h = (h.0, inr refl)
  Placed-finished unloaded b h = inr refl

  -- What `init_module` leaves when it returns.
  Returned : State list → Outcome (State list × ℤ) → Type 0
  Returned s (done (s', r)) = (s'.stop ≡ s.stop) × (r ≡ pos 0)
  Returned s fault = Unit {0}

  init_module-Returned :
      (s s' : State list) (r : ℤ)
      → (init_module_after_wait list s).outcome ≡ done (s', r)
      → (s'.stop ≡ s.stop) × (r ≡ pos 0)
  unfolding init_module_after_wait Returned
  init_module-Returned s s' r e = subst (Returned s) e (refl, refl)

  pub handled : (s s' : State list) → (my_workqueue_handler list s).outcome ≡ done s' → s'.stop ≡ 1
  unfolding my_workqueue_handler
  handled s s' e = subst (EndsWithStop 1) e refl

  Step-IsSound : {a : Answers} {w v : World list} → Step list a w v → IsSound w → IsSound v
  unfolding IsSound Told Placed Excused
  Step-IsSound {a} (start {s} {s'} {w} e) h =
      let told : s.stop ≡ 0 = subst (λ v. Told v s) h.1 h.0 in
      let fresh = subst (EndsWithStop s.stop) e (init_module-EndsWithStop a s) ∙ told in
      (Told-schedule (init_module_until_wait list a s).calls w s' h.1 fresh, tt)
  Step-IsSound (sleep asleep) h = h
  Step-IsSound (handle {s} {s'} {p} {b} e) h = (handled s s' e, Placed-finished p b h.1)
  Step-IsSound (wake {s} {s'} {r} {w} told e) h =
      let end = init_module-Returned s s' r e in
      (Told-same w s s' end.0 h.0, (end.1, inr (Told-finished w s h.0 told)))
  Step-IsSound (interrupt {s} {s'} {r} {w} e) h =
      let end = init_module-Returned s s' r e in (Told-same w s s' end.0 h.0, (end.1, inl refl))
  Step-IsSound (unload {s} {s'} {w} e) h =
      let c = cleanup_module-Cleans list s in
      (Told-same w s s' (subst (EndsWithStop s.stop) (sym c.ended ∙ e) refl) h.0, h.1.1)

  Reach-IsSound : {a : Answers} {w v : World list} → Reach list a w v → IsSound w → IsSound v
  Reach-IsSound here h = h
  Reach-IsSound (r then st) h = Step-IsSound st (Reach-IsSound r h)

  ran :
      (w : Work) (b : Bool) (s : State list)
      → Told w s
      → Excused w b
      → (b ≡ true) ⊎ ((w ≡ finished) × (s.stop ≡ 1))
  unfolding Told Excused
  ran w b s t (inl e) = inl e
  ran w b s t (inr e) = inr (e, subst (λ u. Told u s) e t)

  -- Of a module that is loaded with `stop` clear, in whatever order the work item, a signal and the
  -- unloading come: once `init_module` has returned, it has returned 0, and unless a signal came the
  -- work item has run and has set `stop`.
  pub init_module_waits :
      (a : Answers) (s : State list) (v : World list) (r : ℤ)
      → s.stop ≡ 0
      → Reach list a (loaded list s) v
      → v.phase ≡ returned r
      → (r ≡ pos 0) × ((v.signalled ≡ true) ⊎ ((v.work ≡ finished) × (v.memory.stop ≡ 1)))
  unfolding IsSound Told Placed Excused
  init_module_waits a s v r clear reach back =
      let sound = Reach-IsSound reach (clear, refl) in
      let placed : Placed (returned r) v.work v.signalled =
        subst (λ p. Placed p v.work v.signalled) back sound.1 in
      (placed.0, ran v.work v.signalled v.memory sound.0 placed.1)
