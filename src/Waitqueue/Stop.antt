-- ===== src/Waitqueue/Stop.antt =====
-- The threads that waitqueue.c starts, and those that it stops.
use yu.Prelude.Calls.{call_laws, collect}
use mathlib.Core.List.{map}
use yu.Prelude.{
  ℕ, zero, suc, ◌+◌, ◌≡◌, refl, sym, ap, ap₂, ◌∙◌, ◌⊎◌, inl, inr, false, none, some, List, [], ◌∷◌,
  ◌==◌, Option-cases,
}
use yu.Prelude.Trace.{Run, done}
use yu.KernelList.{KernelList}
use yu.Waitqueue.{
  WaitThread, Answers, Event, State, kthread_create, kmalloc, wake_up_process, kthread_stop, kfree,
  start_loop, start_waitqueue_test, stop_loop, stop_test_threads, cleanup_module,
}

-- The threads that the calls create, and the nodes that they allocate, newest first, in front of
-- those that are given.
abbrev pub created : List ℕ → List Event → List ℕ
created acc [] = acc
created acc (kthread_create i (some p) ∷ es) = created (p ∷ acc) es
created acc (_ ∷ es) = created acc es

abbrev pub nodes : List ℕ → List Event → List ℕ
nodes acc [] = acc
nodes acc (kmalloc p ∷ es) = nodes (p ∷ acc) es
nodes acc (_ ∷ es) = nodes acc es

-- The threads that the calls stop and wake, and the nodes that they free.
abbrev pub stopped_by : Event → List ℕ
stopped_by (kthread_stop p) = p ∷ []
stopped_by _ = []

abbrev pub stopped : List Event → List ℕ
stopped = collect stopped_by

abbrev pub woken_by : Event → List ℕ
woken_by (wake_up_process p) = p ∷ []
woken_by _ = []

abbrev pub woken : List Event → List ℕ
woken = collect woken_by

abbrev pub freed_by : Event → List ℕ
freed_by (kfree p) = p ∷ []
freed_by _ = []

abbrev pub freed : List Event → List ℕ
freed = collect freed_by

-- The calls that end a thread and its node, in their order, and what is expected of them: a thread is
-- stopped, then woken, and then its node is freed, before the next thread is stopped.
abbrev pub ending_by : Event → List Event
ending_by (kthread_stop p) = kthread_stop p ∷ []
ending_by (wake_up_process p) = wake_up_process p ∷ []
ending_by (kfree a) = kfree a ∷ []
ending_by _ = []

abbrev pub endings : List Event → List Event
endings = collect ending_by

abbrev pub one_by_one : List ℕ → List ℕ → List Event
one_by_one (p ∷ ps) (a ∷ rest) = kthread_stop p ∷ wake_up_process p ∷ kfree a ∷ one_by_one ps rest
one_by_one _ _ = []

abbrev pub thread_of : WaitThread → ℕ
thread_of w = w.p

abbrev pub address_of : WaitThread → ℕ
address_of w = w.address

-- In `k` rounds from index `i` on, a thread that is created gets its node.
abbrev pub Noded : ℕ → ℕ → Answers → Type 0
Noded zero i a = Unit {0}
Noded (suc k) i a = ((a.kthread_create i ≡ none) ⊎ ((a.kmalloc i == 0) ≡ false)) × Noded k (i + 1) a

module _ (list : KernelList WaitThread) where
  open list use {list_add, entries, entries-list_add}

  -- A run that ends in a state whose list holds what the calls have created on top of what it held.
  pub record Starts (r : Run Event (State list)) (s : State list) : Type 0 where
    pub end : State list
    pub ended : r.outcome ≡ done end
    pub threads :
        map thread_of (entries end.wait_threads_list)
        ≡ created (map thread_of (entries s.wait_threads_list)) r.calls
    addresses :
        map address_of (entries end.wait_threads_list)
        ≡ nodes (map address_of (entries s.wait_threads_list)) r.calls

  pub start_loop-Starts :
      (left i : ℕ) (a : Answers) (s : State list)
      → Noded left i a
      → Starts (start_loop list left i a s) s
  unfolding start_loop
  start_loop-Starts zero i a s h = record {
    end = s;
    ended = refl;
    threads = refl;
    addresses = refl;
  }
  start_loop-Starts (suc left) i a s (inl gone, rest) =
      let f = start_loop-Starts left (i + 1) a s rest in
      simp gone
        (record { end = f.end; ended = f.ended; threads = f.threads; addresses = f.addresses })
  start_loop-Starts (suc left) i a s (inr node, rest) = elim (Option-cases (a.kthread_create i)) [
    | inl gone ↦
        let f = start_loop-Starts left (i + 1) a s rest in
        simp gone
          (record { end = f.end; ended = f.ended; threads = f.threads; addresses = f.addresses })
    | inr (p, got) ↦
        let entry : WaitThread = record { address = a.kmalloc i; p = p } in
        let t : State list = record s { wait_threads_list = list_add entry s.wait_threads_list } in
        let f = start_loop-Starts left (i + 1) a t rest in
        let calls = (start_loop list left (i + 1) a t).calls in
        let added = entries-list_add entry s.wait_threads_list in
        simp (got, node)
          (record {
            end = f.end;
            ended = f.ended;
            threads = f.threads ∙ ap (λ es. created (map thread_of es) calls) added;
            addresses = f.addresses ∙ ap (λ es. nodes (map address_of es) calls) added;
          })
  ]

  record Stops (r : Run Event (Unit {0})) (threads addresses : List ℕ) : Type 0 where
    ended : r.outcome ≡ done tt
    stops : stopped r.calls ≡ threads
    wakes : woken r.calls ≡ threads
    frees : freed r.calls ≡ addresses
    in_order : endings r.calls ≡ one_by_one threads addresses

  stop_loop-Stops :
      (i : ℕ) (es : List WaitThread)
      → Stops (stop_loop list i es) (map thread_of es) (map address_of es)
  unfolding stop_loop
  stop_loop-Stops i [] = record {
    ended = refl;
    stops = refl;
    wakes = refl;
    frees = refl;
    in_order = refl;
  }
  stop_loop-Stops i (e ∷ es) =
      let rest = stop_loop-Stops (i + 1) es in
      record {
        ended = rest.ended;
        stops = ap (◌∷◌ e.p) rest.stops;
        wakes = ap (◌∷◌ e.p) rest.wakes;
        frees = ap (◌∷◌ e.address) rest.frees;
        in_order =
            ap (λ es. kthread_stop e.p ∷ wake_up_process e.p ∷ kfree e.address ∷ es) rest.in_order;
      }

  pub record Cleans (r : Run Event (State list)) (s : State list) : Type 0 where
    pub ended : r.outcome ≡ done (record s { finish_test = 1 })
    pub stops : stopped r.calls ≡ map thread_of (entries s.wait_threads_list)
    pub wakes : woken r.calls ≡ map thread_of (entries s.wait_threads_list)
    pub frees : freed r.calls ≡ map address_of (entries s.wait_threads_list)
    pub in_order :
        endings r.calls
        ≡ one_by_one
            (map thread_of (entries s.wait_threads_list))
            (map address_of (entries s.wait_threads_list))

  pub cleanup_module-Cleans : (s : State list) → Cleans (cleanup_module list s) s
  unfolding cleanup_module stop_test_threads
  cleanup_module-Cleans s =
      let c = stop_loop-Stops 0 (entries s.wait_threads_list) in
      simp (c.ended, call_laws)
        (record {
          ended = refl;
          stops = c.stops;
          wakes = c.wakes;
          frees = c.frees;
          in_order = c.in_order;
        })

  -- From an empty list, and with a node for each thread that is created: `start_waitqueue_test` ends,
  -- and `cleanup_module` from the state that it leaves stops just the threads that were created, each
  -- once, newest first, frees just their nodes, and sets `finish_test`. It takes the threads one by
  -- one: each is stopped, then woken, when it has exited, and then its node is freed.
  pub cleanup_module-start :
      (a : Answers) (s : State list)
      → entries s.wait_threads_list ≡ []
      → Noded 80 0 a
      → (s' : State list) × ((start_waitqueue_test list a s).outcome ≡ done s')
        × ((cleanup_module list s').outcome ≡ done (record s' { finish_test = 1 }))
        × (stopped (cleanup_module list s').calls
            ≡ created [] (start_waitqueue_test list a s).calls)
        × (woken (cleanup_module list s').calls ≡ stopped (cleanup_module list s').calls)
        × (freed (cleanup_module list s').calls ≡ nodes [] (start_waitqueue_test list a s).calls)
        × (endings (cleanup_module list s').calls
            ≡ one_by_one
                (created [] (start_waitqueue_test list a s).calls)
                (nodes [] (start_waitqueue_test list a s).calls))
  unfolding start_waitqueue_test
  cleanup_module-start a s empty h =
      let f = start_loop-Starts 80 0 a s h in
      let calls = (start_loop list 80 0 a s).calls in
      let c = cleanup_module-Cleans f.end in
      let threads = f.threads ∙ ap (λ l. created (map thread_of l) calls) empty in
      let addresses = f.addresses ∙ ap (λ l. nodes (map address_of l) calls) empty in
      (
        f.end,
        f.ended,
        c.ended,
        c.stops ∙ threads,
        c.wakes ∙ sym c.stops,
        c.frees ∙ addresses,
        c.in_order ∙ ap₂ one_by_one threads addresses,
      )
