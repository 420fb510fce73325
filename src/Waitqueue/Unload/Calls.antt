-- ===== src/Waitqueue/Unload/Calls.antt =====
-- Which threads the calls of waitqueue.c create and stop, in the order of these calls.
use mathlib.Core.List.{map}
use yu.Prelude.Calls.{call_laws, collect, collect-append}
use yu.Prelude.{
  ℕ, ◌≡◌, inl, inr, refl, sym, ap, ap₂, ◌∙◌, Bool, true, false, zero, suc, ◌+◌, Option-cases,
  Bool-cases, ◌&&◌, ◌||◌, none, some, List, [], ◌∷◌, ◌++◌, ◌==◌, append-nil, arith,
}
use yu.Prelude.Trace.{Run, done}
use yu.KernelList.{KernelList}
use yu.Waitqueue.{
  WaitThread, Answers, Event, State, kthread_create, kthread_stop, init_work, schedule_work,
  say_sleeping, wait_event_interruptible, waker_wait_queue, say_woken, wake_up_interruptible,
  bookmark_wait_queue, start_loop, stop_loop, stop_test_threads, start_waitqueue_test,
  init_module_until_wait, init_module_after_wait, cleanup_module,
}
use yu.Waitqueue.Stop.{created, stopped, thread_of, Noded, start_loop-Starts, cleanup_module-Cleans}
use yu.Waitqueue.Unload.{Effect, plain, creates, wakes, stops, effect, load_and_unload}

abbrev pub elem : ℕ → List ℕ → Bool
elem p [] = false
elem p (q ∷ qs) = (q == p) || elem p qs

pub elem-append : (p : ℕ) (xs ys : List ℕ) → elem p (xs ++ ys) ≡ (elem p xs || elem p ys)
elem-append p [] ys = refl
elem-append p (x ∷ xs) ys = ground (arith, elem-append p xs ys)

abbrev pub creates_by : Event → List ℕ
creates_by e = elim (effect e) [ creates i p ↦ p ∷ [] | _ ↦ [] ]

abbrev pub to_create : List Event → List ℕ
to_create = collect creates_by

abbrev pub stops_by : Event → List ℕ
stops_by e = elim (effect e) [ stops p ↦ p ∷ [] | _ ↦ [] ]

abbrev pub to_stop : List Event → List ℕ
to_stop = collect stops_by

-- Whether each thread is stopped after it is created.
abbrev pub covered : List Event → Bool
covered [] = true
covered (e ∷ es) = elim (effect e) [
  | creates i p ↦ elem p (to_stop es) && covered es
  | _ ↦ covered es
]

to_create-created :
    (p : ℕ) (acc : List ℕ) (es : List Event)
    → elem p (created acc es) ≡ (elem p acc || elem p (to_create es))
to_create-created p acc [] = ground arith
to_create-created p acc (kthread_create i (some q) ∷ es) =
    ground (arith, to_create-created p (q ∷ acc) es)
to_create-created p acc (kthread_create i none ∷ es) = to_create-created p acc es
to_create-created p acc (_ ∷ es) = to_create-created p acc es

to_stop-stopped : (es : List Event) → to_stop es ≡ stopped es
to_stop-stopped [] = refl
to_stop-stopped (kthread_create i (some q) ∷ es) = to_stop-stopped es
to_stop-stopped (kthread_create i none ∷ es) = to_stop-stopped es
to_stop-stopped (kthread_stop p ∷ es) = ap (◌∷◌ p) (to_stop-stopped es)
to_stop-stopped (_ ∷ es) = to_stop-stopped es

covered_none : (es : List Event) → to_create es ≡ [] → covered es ≡ true
covered_none [] h = refl
covered_none (e ∷ es) h = ground (arith, covered_none es)

-- A call in front of others, if these stop the thread that it creates.
covered-cons :
    (x : Effect) (e : Event) (es : List Event)
    → effect e ≡ x
    → ((p : ℕ) → elem p (creates_by e) ≡ true → elem p (to_stop es) ≡ true)
    → covered es ≡ true
    → covered (e ∷ es) ≡ true
covered-cons plain e es h s c = rw (covered, h) c
covered-cons (creates i p) e es h s c =
    let last : elem p (to_stop es) ≡ true = s p (rw (elem, h) (ground arith)) in
    rw (covered, h) (ap₂ (λ x y. x && y) last c)
covered-cons (wakes p) e es h s c = rw (covered, h) c
covered-cons (stops p) e es h s c = rw (covered, h) c

covered-append :
    (es fs : List Event)
    → ((p : ℕ) → elem p (to_create es) ≡ true → elem p (to_stop fs) ≡ true)
    → covered fs ≡ true
    → covered (es ++ fs) ≡ true
covered-append [] fs h c = c
covered-append (e ∷ es) fs h c =
    covered-cons (effect e) e (es ++ fs) refl
      (λ p first.
        let all = elem-append p (creates_by e) (to_create es) in
        let late = h p (ground (arith, all)) in
        rw (collect-append stops_by es fs)
          (ground (arith, late, elem-append p (to_stop es) (to_stop fs))))
      (covered-append es fs
        (λ p m. h p (ground (arith, elem-append p (creates_by e) (to_create es)))) c)

module _ (list : KernelList WaitThread) where
  open list use {entries, list_add}

  start_loop_stops :
      (left i : ℕ) (a : Answers) (s : State list) → to_stop (start_loop list left i a s).calls ≡ []
  unfolding start_loop
  start_loop_stops zero i a s = refl
  start_loop_stops (suc left) i a s = elim (Option-cases (a.kthread_create i)) [
    | inl gone ↦ simp gone (start_loop_stops left (i + 1) a s)
    | inr (p, got) ↦
        let entry : WaitThread = record { address = a.kmalloc i; p = p } in
        let t : State list = record s { wait_threads_list = list_add entry s.wait_threads_list } in
        elim (Bool-cases (a.kmalloc i == 0)) [
          | inl null ↦ simp (got, null) refl
          | inr node ↦ simp (got, node) (start_loop_stops left (i + 1) a t)
        ]
  ]

  stop_loop_creates :
      (i : ℕ) (es : List WaitThread)
      → ((stop_loop list i es).outcome ≡ done tt) × (to_create (stop_loop list i es).calls ≡ [])
  unfolding stop_loop
  stop_loop_creates i [] = (refl, refl)
  stop_loop_creates i (e ∷ es) = stop_loop_creates (i + 1) es

  pub cleanup_module_creates : (s : State list) → to_create (cleanup_module list s).calls ≡ []
  unfolding cleanup_module stop_test_threads
  cleanup_module_creates s =
      let (ended, none_made) = stop_loop_creates 0 (entries s.wait_threads_list) in
      rw (ended, append-nil) none_made

  -- The unloading stops the threads that the loading creates.
  pub cleanup_module_stops :
      (a : Answers) (s : State list)
      → entries s.wait_threads_list ≡ []
      → (h : Noded 80 0 a) → (p : ℕ)
      → elem p (to_stop (cleanup_module list (start_loop-Starts list 80 0 a s h).end).calls)
        ≡ elem p (to_create (start_loop list 80 0 a s).calls)
  cleanup_module_stops a s empty h p =
      let f = start_loop-Starts list 80 0 a s h in
      let loop = (start_loop list 80 0 a s).calls in
      let stops_all : to_stop (cleanup_module list f.end).calls ≡ created [] loop =
        to_stop-stopped (cleanup_module list f.end).calls
        ∙ (cleanup_module-Cleans list f.end).stops
        ∙ f.threads
        ∙ ap (λ l. created (map thread_of l) loop) empty in
      ap (elem p) stops_all ∙ to_create-created p [] loop

  -- A run that ends, and stops just the threads that it creates, each after its creation.
  pub record Balanced (r : Run Event (State list)) : Type 0 where
    pub end : State list
    pub ended : r.outcome ≡ done end
    pub balanced : (p : ℕ) → elem p (to_stop r.calls) ≡ elem p (to_create r.calls)
    pub ordered : covered r.calls ≡ true

  pub load_and_unload-Balanced :
      (a : Answers) (s : State list)
      → entries s.wait_threads_list ≡ []
      → Noded 80 0 a
      → Balanced (load_and_unload list a s)
  unfolding load_and_unload init_module_until_wait init_module_after_wait start_waitqueue_test
  load_and_unload-Balanced a s empty h =
      let f = start_loop-Starts list 80 0 a s h in
      let c = cleanup_module-Cleans list f.end in
      let loop = (start_loop list 80 0 a s).calls in
      let none_made = cleanup_module_creates f.end in
      let listed = cleanup_module_stops a s empty h in
      let until_wait =
        init_work ∷ schedule_work ∷ say_sleeping ∷ wait_event_interruptible waker_wait_queue ∷ [] in
      let shorter : to_create (loop ++ until_wait) ≡ to_create loop = simp call_laws in
      simp (f.ended, c.ended)
        (record {
          end = _;
          ended = refl;
          balanced = λ p. simp (call_laws, none_made, start_loop_stops 80 0 a s) (listed p);
          ordered =
              covered-append (loop ++ until_wait)
                (say_woken
                  ∷ wake_up_interruptible bookmark_wait_queue
                  ∷ (cleanup_module list f.end).calls)
                (λ p m. listed p ∙ sym (ap (elem p) shorter) ∙ m)
                (covered_none (cleanup_module list f.end).calls none_made);
        })
