-- ===== src/Waitqueue/Unload/Exits.antt =====
-- What the threads of waitqueue.c have done when the module is unloaded.
use mathlib.Core.Path.{subst}
use yu.Prelude.Update.{==→≡}
use yu.Prelude.{
  ℕ, suc, ◌≡◌, ◌⊎◌, inl, inr, refl, sym, ap, ◌∙◌, true, false, List, [], ◌∷◌, ◌==◌, if◌then◌else◌,
  arith,
}
use yu.Waitqueue.{
  WaitThread, Answers, State, Event, bookmark_wait_queue, add_wait_queue, wait_queue_test_thread,
}
use yu.Waitqueue.Unload.{
  Thread, absent, created, ready, looping, leaving, exited, wake, creates, effect, World, Step,
  loader_calls, loader_creates, loader_wakes, loader_tells, loader_joins, thread_enters,
  thread_skips, thread_rounds, thread_leaves, Reach, here, ◌then◌, load_and_unload, start,
}
use yu.Waitqueue.Threads.{adds, removes, wait_queue_test_thread_ends}
use yu.KernelList.{KernelList}
use yu.Waitqueue.Unload.Calls.{load_and_unload-Balanced, elem, to_create, covered}
use yu.Waitqueue.Stop.{Noded}
use yu.Waitqueue.Unload.Whole.{told_in_round, wait_queue_test_thread-whole}
use yu.Waitqueue.Unload.Kept.{
  whole, Shape, alive, present, At, At-set, At-set_state, At-next, At-wake, At-plain, At-wakes,
  At-stops, At-creates, ==_swap, round-Shape, leave-Shape, present_after,
}

record IsSound (all : List Event) (w : World) : Type 0 where
  at : (p : ℕ) → At all w.left p (w.threads p) (w.made p)
  ordered : covered w.left ≡ true

covered-tail : (e : Event) (es : List Event) → covered (e ∷ es) ≡ true → covered es ≡ true
covered-tail e es h = ground arith

-- A thread that is created is stopped by a later call.
created-At :
    (all left : List Event) (e : Event) (p i : ℕ) (es : List Event)
    → effect e ≡ creates i p
    → covered (e ∷ left) ≡ true
    → es ≡ []
    → At all left p (created i) es
created-At all left e p i es x c empty = record {
  shape = empty;
  to_be_stopped = λ a. ground arith;
  known = λ k. ground arith;
}

Step-IsSound : {all : List Event} {w v : World} → Step w v → IsSound all w → IsSound all v
Step-IsSound (loader_calls {e} {es} {b} {t} {m} x) h = record {
  at = λ q. At-plain _ es e q (t q) (m q) (h.at q) x;
  ordered = covered-tail e es h.ordered;
}
Step-IsSound (loader_creates {e} {es} {b} {t} {m} {i} {p} x new) h =
    let empty : m p ≡ [] = subst (λ v. Shape v (m p)) new (h.at p).shape in
    record {
      at =
          At-set_state _ es t m p (created i)
            (λ q other. At-creates _ es e q (t q) (m q) (h.at q) p i x (==_swap p q other))
            (created-At _ es e p i (m p) x h.ordered empty);
      ordered = covered-tail e es h.ordered;
    }
Step-IsSound (loader_wakes {e} {es} {b} {t} {m} {p} x) h = record {
  at =
      At-set_state _ es t m p (wake (t p)) (λ q _. At-wakes _ es e q (t q) (m q) (h.at q) p x)
        (At-wake _ es p (t p) (m p) (At-wakes _ es e p (t p) (m p) (h.at p) p x));
  ordered = covered-tail e es h.ordered;
}
Step-IsSound (loader_tells {e} {es} {b} {t} {m} {p} x) h = record {
  at =
      At-set_state _ (e ∷ es) t m p (wake (t p)) (λ q _. h.at q)
        (At-wake _ (e ∷ es) p (t p) (m p) (h.at p));
  ordered = h.ordered;
}
Step-IsSound (loader_joins {e} {es} {b} {t} {m} {i} {p} x told gone) h = record {
  at =
      λ q. At-stops _ es e q (t q) (m q) (h.at q) p i x (λ same. ap t (sym (==→≡ q p same)) ∙ gone);
  ordered = covered-tail e es h.ordered;
}
Step-IsSound (thread_enters {es} {b} {t} {m} p i was told) h = record {
  at =
      At-set _ es t m p (looping i 0) (λ q _. h.at q) (add_wait_queue bookmark_wait_queue ∷ [])
        (At-next _ es p (t p) (looping i 0) (m p) _ (ap alive was) refl refl (h.at p));
  ordered = h.ordered;
}
Step-IsSound (thread_skips {es} {b} {t} {m} p i was told) h = record {
  at =
      At-set_state _ es t m p (exited i) (λ q _. h.at q)
        (At-next _ es p (t p) (exited i) (m p) (m p) (ap alive was) refl
          (inl (subst (λ v. Shape v (m p)) was (h.at p).shape)) (h.at p));
  ordered = h.ordered;
}
Step-IsSound (thread_rounds {es} {b} {t} {m} {told} p i n was e) h =
    let made = subst (λ v. Shape v (m p)) was (h.at p).shape in
    record {
      at =
          At-set _ es t m p _ (λ q _. h.at q) _
            (At-next _ es p (t p) _ (m p) _ (ap alive was) (present_after told i (suc n))
              (round-Shape i n (b p) told (m p) made) (h.at p));
      ordered = h.ordered;
    }
Step-IsSound (thread_leaves {es} {b} {t} {m} p i n was) h =
    let made = subst (λ v. Shape v (m p)) was (h.at p).shape in
    record {
      at =
          At-set _ es t m p (exited i) (λ q _. h.at q) _
            (At-next _ es p (t p) (exited i) (m p) _ (ap alive was) refl
              (leave-Shape i n (m p) made) (h.at p));
      ordered = h.ordered;
    }

Reach-IsSound : {all : List Event} {w v : World} → Reach w v → IsSound all w → IsSound all v
Reach-IsSound here h = h
Reach-IsSound (r then st) h = Step-IsSound st (Reach-IsSound r h)

-- A thread with no call left to stop it has exited.
over :
    (t : Thread) (es : List Event)
    → present t ≡ true
    → (alive t ≡ true → false ≡ true)
    → Shape t es
    → (i : ℕ) × (t ≡ exited i) × ((es ≡ []) ⊎ ((k : ℕ) × (es ≡ whole i k)))
over absent es is gone s = absurd (ground arith)
over (exited i) es is gone s = (i, refl, s)
over (created i) es is gone s = absurd (ground arith)
over (ready i) es is gone s = absurd (ground arith)
over (looping i n) es is gone s = absurd (ground arith)
over (leaving i n) es is gone s = absurd (ground arith)

-- Its calls are those of a run of its function.
run-whole :
    (i k : ℕ) (es : List Event)
    → es ≡ whole i k
    → (es ≡ (wait_queue_test_thread (suc k) i (λ j. j == k)).calls) × (adds es ≡ removes es)
run-whole i k es h =
    let same =
      wait_queue_test_thread-whole i (λ j. j == k) k (suc k) (told_in_round k 0 k (omega arith))
        (omega arith) in
    let ends =
      wait_queue_test_thread_ends k (suc k) i (λ j. j == k) (told_in_round k 0 k (omega arith))
        (omega arith) in
    let es-run = h ∙ sym same in (es-run, rw es-run (ends.2 ∙ sym ends.3))

ran :
    (i : ℕ) (es : List Event)
    → (es ≡ []) ⊎ ((k : ℕ) × (es ≡ whole i k))
    → ((es ≡ []) ⊎ ((k : ℕ) × (es ≡ (wait_queue_test_thread (suc k) i (λ j. j == k)).calls)))
      × (adds es ≡ removes es)
ran i es (inl none_made) = (inl none_made, rw none_made refl)
ran i es (inr (k, h)) = let (run, left_queue) = run-whole i k es h in (inr (k, run), left_queue)

module _ (list : KernelList WaitThread) where
  open list use {entries}

  -- The module has no thread when it is loaded, and gets a node for each thread that it creates. Then
  -- in whatever order the threads and the loading thread go on, once the loading thread has loaded and
  -- unloaded the module, each thread that was created has exited; it has made no call of its function,
  -- or just those of a whole run of it, and has left the wait queue as often as it has entered it.
  pub threads_exited :
      (a : Answers) (s : State list) (w : World) (p : ℕ)
      → entries s.wait_threads_list ≡ []
      → Noded 80 0 a
      → Reach (start list a s) w
      → w.left ≡ []
      → elem p (to_create (load_and_unload list a s).calls) ≡ true
      → (i : ℕ) × (w.threads p ≡ exited i)
        × ((w.made p ≡ [])
            ⊎ ((k : ℕ) × (w.made p ≡ (wait_queue_test_thread (suc k) i (λ j. j == k)).calls)))
        × (adds (w.made p) ≡ removes (w.made p))
  threads_exited a s w p empty h reach finished mine =
      let b = load_and_unload-Balanced list a s empty h in
      let all = (load_and_unload list a s).calls in
      let begin : IsSound all (start list a s) = record {
        at = λ q. record {
          shape = refl;
          to_be_stopped = λ x. absurd (ground arith);
          known = λ k. ground (arith, k);
        };
        ordered = b.ordered;
      } in
      let sound = (Reach-IsSound reach begin).at p in
      let is : present (w.threads p) ≡ true = ground (arith, finished, sound.known mine) in
      let gone : alive (w.threads p) ≡ true → false ≡ true =
        λ x. ground (arith, finished, sound.to_be_stopped x) in
      let (i, exit, calls) = over (w.threads p) (w.made p) is gone sound.shape in
      let (runs, left_queue) = ran i (w.made p) calls in (i, exit, runs, left_queue)
