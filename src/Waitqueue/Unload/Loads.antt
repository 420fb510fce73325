-- ===== src/Waitqueue/Unload/Loads.antt =====
-- The threads that waitqueue.c creates are new, if no two have the same address.
use yu.Prelude.Calls.{call_laws}
use yu.Prelude.{
  ℕ, zero, suc, ◌+◌, ◌<◌, ◌≡◌, refl, ap, ap₂, not, ◌&&◌, ◌∙◌, true, false, some, List, [], ◌∷◌,
  ◌++◌, ◌==◌, Option-cases, Bool-cases, inl, inr, arith,
}
use yu.Prelude.Trace.{Run}
use yu.KernelList.{KernelList}
use yu.Waitqueue.{
  WaitThread, Answers, State, Event, init_work, schedule_work, say_sleeping,
  wait_event_interruptible, waker_wait_queue, say_woken, wake_up_interruptible, bookmark_wait_queue,
  start_loop, start_waitqueue_test, init_module_until_wait, init_module_after_wait, cleanup_module,
}
use yu.Waitqueue.Stop.{Noded, start_loop-Starts}
use yu.Waitqueue.Unload.{load_and_unload}
use yu.Waitqueue.Unload.Calls.{elem, to_create, cleanup_module_creates, cleanup_module_stops}
use yu.Waitqueue.Unload.Can.{can, can-append, can_stops}

-- No two rounds create a thread at the same address.
abbrev pub AreDistinct : Answers → Type 0
AreDistinct a = (i j p : ℕ) → a.kthread_create i ≡ some p → a.kthread_create j ≡ some p → i ≡ j

-- The threads were created in the rounds before round `i`.
abbrev Older : Answers → ℕ → List ℕ → Type 0
Older a i ks = (q : ℕ) → elem q ks ≡ true → (j : ℕ) × (j < i) × (a.kthread_create j ≡ some q)

Older-cons :
    (a : Answers) (i p : ℕ) (ks : List ℕ)
    → a.kthread_create i ≡ some p
    → Older a i ks
    → Older a (i + 1) (p ∷ ks)
Older-cons a i p ks got older q m = elim (Bool-cases (p == q)) [
  | inl same ↦ (i, omega arith, got ∙ ap some (ground arith))
  | inr other ↦ let (j, lt, e) = older q (ground arith) in (j, omega (arith, lt), e)
]

new_thread :
    (a : Answers) (i p : ℕ) (ks : List ℕ)
    → AreDistinct a
    → a.kthread_create i ≡ some p
    → Older a i ks
    → elem p ks ≡ false
new_thread a i p ks distinct got older = elim (Bool-cases (elem p ks)) [
  | inl there ↦ let (j, lt, e) = older p there in absurd (omega (arith, lt, distinct i j p got e))
  | inr new ↦ new
]

module _ (list : KernelList WaitThread) where
  open list use {entries, list_add}

  -- A run whose calls can be made.
  record Makes (ks : List ℕ) (r : Run Event (State list)) : Type 0 where
    able : can ks r.calls ≡ true

  start_loop-can :
      (left i : ℕ) (a : Answers) (s : State list) (ks : List ℕ)
      → AreDistinct a
      → Older a i ks
      → Makes ks (start_loop list left i a s)
  unfolding start_loop
  start_loop-can zero i a s ks distinct older = record { able = refl }
  start_loop-can (suc left) i a s ks distinct older = elim (Option-cases (a.kthread_create i)) [
    | inl gone ↦
        let rest =
          start_loop-can left (i + 1) a s ks distinct
            (λ q m. let (j, lt, e) = older q m in (j, omega (arith, lt), e)) in
        simp gone (record { able = rest.able })
    | inr (p, got) ↦
        let entry : WaitThread = record { address = a.kmalloc i; p = p } in
        let t : State list = record s { wait_threads_list = list_add entry s.wait_threads_list } in
        let new = new_thread a i p ks distinct got older in
        elim (Bool-cases (a.kmalloc i == 0)) [
          | inl null ↦ simp (got, null) (record { able = ap (λ x. not x && true) new })
          | inr node ↦
              let rest =
                start_loop-can left (i + 1) a t (p ∷ ks) distinct (Older-cons a i p ks got older) in
              simp (got, node) (record { able = ap₂ (λ x y. not x && y) new rest.able })
        ]
  ]

  pub load_and_unload-can :
      (a : Answers) (s : State list)
      → entries s.wait_threads_list ≡ []
      → Noded 80 0 a
      → AreDistinct a
      → can [] (load_and_unload list a s).calls ≡ true
  unfolding load_and_unload init_module_until_wait init_module_after_wait start_waitqueue_test
  load_and_unload-can a s empty h distinct =
      let f = start_loop-Starts list 80 0 a s h in
      let loop = (start_loop list 80 0 a s).calls in
      let until_wait =
        init_work ∷ schedule_work ∷ say_sleeping ∷ wait_event_interruptible waker_wait_queue ∷ [] in
      let shorter : to_create (loop ++ until_wait) ≡ to_create loop = simp call_laws in
      let loads = start_loop-can 80 0 a s [] distinct (λ q m. absurd (ground arith)) in
      let stops_all = cleanup_module_stops list a s empty h in
      simp f.ended (
        can-append (loop ++ until_wait)
          (say_woken
            ∷ wake_up_interruptible bookmark_wait_queue
            ∷ (cleanup_module list f.end).calls)
          [] (can-append loop until_wait [] loads.able (λ ls g. refl))
          (λ ls g.
            can_stops (cleanup_module list f.end).calls ls (cleanup_module_creates list f.end)
              (λ p m. ground (arith, g p, ap (elem p) shorter, stops_all p))))
