-- ===== src/Waitqueue/Unload/Drain.antt =====
-- A thread of waitqueue.c that is told to stop can exit.
use yu.Prelude.Update.{set, ==→≡, set_self}
use yu.Prelude.{
  ℕ, suc, ◌≡◌, refl, sym, ap, ◌∙◌, Bool, true, false, List, ◌++◌, ◌==◌, if◌then◌else◌, Bool-cases,
  inl, inr, arith,
}
use yu.Prelude.Trace.{done}
use yu.Waitqueue.{Event, thread_round}
use yu.Waitqueue.Unload.{
  Thread, absent, created, ready, looping, leaving, exited, wake, World, world, thread_skips,
  thread_rounds, thread_leaves, Reach, here, ◌then◌,
}
use yu.Waitqueue.Unload.Kept.{present}

pub Reach-trans : {w v u : World} → Reach w v → Reach v u → Reach w u
Reach-trans r here = r
Reach-trans r (s then st) = Reach-trans r s then st

-- A change of a thread that is there keeps which threads are there.
pub present-set :
    (t : ℕ → Thread) (p : ℕ) (v : Thread)
    → present v ≡ present (t p)
    → (q : ℕ) → present (set t p v q) ≡ present (t q)
present-set t p v h q = elim (Bool-cases (q == p)) [
  | inl same ↦ rw same (h ∙ ap (λ r. present (t r)) (sym (==→≡ p q same)))
  | inr other ↦ rw other refl
]

pub present-wake : (x : Thread) → present (wake x) ≡ present x
present-wake absent = refl
present-wake (created i) = refl
present-wake (ready i) = refl
present-wake (looping i n) = refl
present-wake (leaving i n) = refl
present-wake (exited i) = refl

pub not_present : (x : Thread) → present x ≡ false → x ≡ absent
not_present absent h = refl
not_present (created i) h = absurd (ground arith)
not_present (ready i) h = absurd (ground arith)
not_present (looping i n) h = absurd (ground arith)
not_present (leaving i n) h = absurd (ground arith)
not_present (exited i) h = absurd (ground arith)

-- A point that is reached from another, with the thread exited and the others as they were.
pub record Drains (es : List Event) (b : ℕ → Bool) (t : ℕ → Thread) (m : ℕ → List Event) (p : ℕ)
    : Type 0 where
  pub threads : ℕ → Thread
  pub made : ℕ → List Event
  pub index : ℕ
  pub reached : Reach (world es b t m) (world es b threads made)
  pub gone : threads p ≡ exited index
  pub same : (q : ℕ) → present (threads q) ≡ present (t q)

module _ (es : List Event) (b : ℕ → Bool) (p : ℕ) (told : b p ≡ true) where
  drain_leaving :
      (t : ℕ → Thread) (m : ℕ → List Event) (i n : ℕ) → t p ≡ leaving i n → Drains es b t m p
  drain_leaving t m i n is = record {
    threads = set t p (exited i);
    made = _;
    index = i;
    reached = here then thread_leaves p i n is;
    gone = set_self t p (exited i);
    same = present-set t p (exited i) (sym (ap present is));
  }

  drain_looping :
      (t : ℕ → Thread) (m : ℕ → List Event) (i n : ℕ) → t p ≡ looping i n → Drains es b t m p
  unfolding thread_round
  drain_looping t m i n is =
      let t' = set t p (leaving i (suc n)) in
      let m' = set m p (m p ++ (thread_round i (b p)).calls) in
      let d = drain_leaving t' m' i (suc n) (set_self t p (leaving i (suc n))) in
      let round : (thread_round i (b p)).outcome ≡ done true = ap done told in
      record {
        threads = d.threads;
        made = d.made;
        index = d.index;
        reached = Reach-trans (here then thread_rounds p i n is round) d.reached;
        gone = d.gone;
        same = λ q. d.same q ∙ present-set t p (leaving i (suc n)) (sym (ap present is)) q;
      }

  drain_ready : (t : ℕ → Thread) (m : ℕ → List Event) (i : ℕ) → t p ≡ ready i → Drains es b t m p
  drain_ready t m i is = record {
    threads = set t p (exited i);
    made = m;
    index = i;
    reached = here then thread_skips p i is told;
    gone = set_self t p (exited i);
    same = present-set t p (exited i) (sym (ap present is));
  }

  -- A thread that is told to stop and is awake can exit.
  pub drain :
      (x : Thread) (t : ℕ → Thread) (m : ℕ → List Event)
      → t p ≡ wake x
      → present x ≡ true
      → Drains es b t m p
  drain absent t m is h = absurd (ground arith)
  drain (created i) t m is h = drain_ready t m i is
  drain (ready i) t m is h = drain_ready t m i is
  drain (looping i n) t m is h = drain_looping t m i n is
  drain (leaving i n) t m is h = drain_leaving t m i n is
  drain (exited i) t m is h = record {
    threads = t;
    made = m;
    index = i;
    reached = here;
    gone = is;
    same = λ q. refl;
  }
