-- ===== src/Waitqueue/Unload/Kept.antt =====
-- What holds of each thread of waitqueue.c at every point.
use mathlib.Core.Path.{subst}
use yu.Prelude.Update.{set, ==→≡}
use yu.Prelude.{
  ℕ, zero, suc, ◌≡◌, ◌⊎◌, inl, inr, refl, sym, ap, Bool, true, false, ◌||◌, some, List, [], ◌∷◌,
  ◌++◌, ◌==◌, if◌then◌else◌, Bool-cases, arith,
}
use yu.Waitqueue.{
  Event, bookmark_wait_queue, add_wait_queue, remove_wait_queue, set_interruptible,
  schedule_timeout, say_thread_woken, thread_round, leave_queue,
}
use yu.Waitqueue.Unload.{
  Thread, absent, created, ready, looping, leaving, exited, wake, plain, creates, wakes, stops,
  effect, ◌then◌,
}
use yu.Waitqueue.Unload.Calls.{elem, to_create, to_stop}

-- The calls of `n` rounds.
abbrev pub rounds : ℕ → ℕ → List Event
rounds i zero = []
rounds i (suc n) = set_interruptible ∷ schedule_timeout 10 ∷ say_thread_woken i ∷ rounds i n

pub rounds-snoc :
    (i n : ℕ)
    → rounds i n ++ (set_interruptible ∷ schedule_timeout 10 ∷ say_thread_woken i ∷ [])
      ≡ rounds i (suc n)
rounds-snoc i zero = refl
rounds-snoc i (suc n) =
    ap (λ es. set_interruptible ∷ schedule_timeout 10 ∷ say_thread_woken i ∷ es) (rounds-snoc i n)

-- The calls of a thread up to its loop's `n`-th test, and all of them.
abbrev pub up_to : ℕ → ℕ → List Event
up_to i n = add_wait_queue bookmark_wait_queue ∷ rounds i n

abbrev pub whole : ℕ → ℕ → List Event
whole i n = up_to i (suc n) ++ (remove_wait_queue bookmark_wait_queue ∷ [])

abbrev pub Shape : Thread → List Event → Type 0
Shape (looping i n) es = es ≡ up_to i n
Shape (leaving i n) es = (k : ℕ) × (es ≡ up_to i (suc k))
Shape (exited i) es = (es ≡ []) ⊎ ((k : ℕ) × (es ≡ whole i k))
Shape _ es = es ≡ []

abbrev pub alive : Thread → Bool
alive absent = false
alive (exited i) = false
alive _ = true

abbrev pub present : Thread → Bool
present absent = false
present _ = true

-- What holds of one thread: its calls, that it is still to be stopped if it is alive, and that it is
-- still to be created if it is to be created and is not there.
pub record At (all left : List Event) (p : ℕ) (t : Thread) (es : List Event) : Type 0 where
  pub shape : Shape t es
  pub to_be_stopped : alive t ≡ true → elem p (to_stop left) ≡ true
  pub known : elem p (to_create all) ≡ true → (elem p (to_create left) || present t) ≡ true

-- One thread changes.
module _ (all left : List Event) (t : ℕ → Thread) (m : ℕ → List Event) (p : ℕ) (v : Thread)
    (h : (q : ℕ) → (q == p) ≡ false → At all left q (t q) (m q)) where
  pub At-set :
      (es : List Event) → At all left p v es → (q : ℕ) → At all left q (set t p v q) (set m p es q)
  At-set es new q = elim (Bool-cases (q == p)) [
    | inl same ↦ rw same (subst (λ r. At all left r v es) (sym (==→≡ p q same)) new)
    | inr other ↦ rw other (h q other)
  ]

  pub At-set_state : At all left p v (m p) → (q : ℕ) → At all left q (set t p v q) (m q)
  At-set_state new q = elim (Bool-cases (q == p)) [
    | inl same ↦ rw same (subst (λ r. At all left r v (m r)) (sym (==→≡ p q same)) new)
    | inr other ↦ rw other (h q other)
  ]

-- A thread that is there goes on.
pub At-next :
    (all left : List Event) (p : ℕ) (t v : Thread) (es fs : List Event)
    → alive t ≡ true
    → present v ≡ true
    → Shape v fs
    → At all left p t es
    → At all left p v fs
At-next all left p t v es fs was is new h = record {
  shape = new;
  to_be_stopped = λ a. h.to_be_stopped was;
  known = λ k. ground arith;
}

pub At-wake :
    (all left : List Event) (p : ℕ) (t : Thread) (es : List Event)
    → At all left p t es
    → At all left p (wake t) es
At-wake all left p (created i) es h =
    At-next all left p (created i) (ready i) es es refl refl h.shape h
At-wake all left p absent es h = h
At-wake all left p (ready i) es h = h
At-wake all left p (looping i n) es h = h
At-wake all left p (leaving i n) es h = h
At-wake all left p (exited i) es h = h

-- A call is made.
module _ (all left : List Event) (e : Event) (p : ℕ) (t : Thread) (es : List Event)
    (h : At all (e ∷ left) p t es) where
  pub At-plain : effect e ≡ plain → At all left p t es
  At-plain x = record {
    shape = h.shape;
    to_be_stopped = λ a. ground (arith, h.to_be_stopped a);
    known = λ k. ground (arith, h.known k);
  }

  pub At-wakes : (q : ℕ) → effect e ≡ wakes q → At all left p t es
  At-wakes q x = record {
    shape = h.shape;
    to_be_stopped = λ a. ground (arith, h.to_be_stopped a);
    known = λ k. ground (arith, h.known k);
  }

  pub At-stops :
      (q i : ℕ) → effect e ≡ stops q → ((q == p) ≡ true → t ≡ exited i) → At all left p t es
  At-stops q i x gone = record {
    shape = h.shape;
    to_be_stopped = λ a. ground (arith, h.to_be_stopped a, gone);
    known = λ k. ground (arith, h.known k);
  }

  pub At-creates : (q i : ℕ) → effect e ≡ creates i q → (q == p) ≡ false → At all left p t es
  At-creates q i x other = record {
    shape = h.shape;
    to_be_stopped = λ a. ground (arith, h.to_be_stopped a);
    known = λ k. ground (arith, h.known k);
  }

pub ==_swap : (p q : ℕ) → (q == p) ≡ false → (p == q) ≡ false
==_swap p q h = ground arith

-- A thread that makes a round, and one that leaves.
pub round-Shape :
    (i n : ℕ) (stop told : Bool) (es : List Event)
    → es ≡ up_to i n
    → Shape
        (if told then leaving i (suc n) else looping i (suc n))
        (es ++ (thread_round i stop).calls)
unfolding thread_round
round-Shape i n stop true es h =
    (n, rw h (ap (◌∷◌ (add_wait_queue bookmark_wait_queue)) (rounds-snoc i n)))
round-Shape i n stop false es h =
    rw h (ap (◌∷◌ (add_wait_queue bookmark_wait_queue)) (rounds-snoc i n))

pub leave-Shape :
    (i n : ℕ) (es : List Event)
    → Shape (leaving i n) es
    → Shape (exited i) (es ++ (leave_queue (some tt)).calls)
unfolding leave_queue
leave-Shape i n es (k, h) = inr (k, rw h refl)

pub present_after :
    (told : Bool) (i n : ℕ) → present (if told then leaving i n else looping i n) ≡ true
present_after told i n = ground arith
