-- ===== src/Waitqueue/Unload/Ends.antt =====
-- The unloading of waitqueue.c can always come to its end.
use yu.Prelude.Update.{set, set_self}
use yu.Prelude.{ℕ, suc, ◌≡◌, refl, sym, ap, ◌∙◌, Bool, true, List, [], ◌∷◌, if◌then◌else◌, arith}
use yu.KernelList.{KernelList}
use yu.Waitqueue.{WaitThread, Answers, State, Event}
use yu.Waitqueue.Stop.{Noded}
use yu.Waitqueue.Unload.{
  Thread, created, looping, exited, wake, Effect, plain, creates, wakes, stops, effect, World,
  world, Step, loader_calls, loader_creates, loader_wakes, loader_tells, loader_joins,
  thread_enters, thread_skips, thread_rounds, thread_leaves, Reach, here, ◌then◌, start,
}
use yu.Waitqueue.Unload.Calls.{elem}
use yu.Waitqueue.Unload.Can.{can}
use yu.Waitqueue.Unload.Loads.{AreDistinct, load_and_unload-can}
use yu.Waitqueue.Unload.Kept.{present, present_after}
use yu.Waitqueue.Unload.Drain.{Reach-trans, present-set, present-wake, not_present, drain}

-- The threads that are there, where the calls that are left can be made.
record Ready (known : List ℕ) (w : World) : Type 0 where
  there : (q : ℕ) → present (w.threads q) ≡ elem q known
  able : can known w.left ≡ true

-- A thread that is there changes.
Ready-set :
    {ks : List ℕ} {es es' : List Event} {b b' : ℕ → Bool} {t : ℕ → Thread} {m m' : ℕ → List Event}
    (p : ℕ) (v : Thread)
    → Ready ks (world es b t m)
    → present v ≡ present (t p)
    → can ks es' ≡ true
    → Ready ks (world es' b' (set t p v) m')
Ready-set {t} p v h same able = record {
  there = λ q. present-set t p v same q ∙ h.there q;
  able = able;
}

abbrev Finishes : World → Type 0
Finishes w = (v : World) × Reach w v × (v.left ≡ [])

after-Finishes : {w v : World} → Reach w v → Finishes v → Finishes w
after-Finishes r (v, s, done) = (v, Reach-trans r s, done)

-- A thread is created.
there-creates :
    (known : List ℕ) (t : ℕ → Thread) (p i : ℕ)
    → ((q : ℕ) → present (t q) ≡ elem q known)
    → (q : ℕ) → present (set t p (created i) q) ≡ elem q (p ∷ known)
there-creates known t p i h q = ground (arith, h q)

-- The calls that are left can be made.
abbrev Next : List Event → Type 0
Next es =
    (b : ℕ → Bool) (t : ℕ → Thread) (m : ℕ → List Event) (known : List ℕ)
    → Ready known (world es b t m)
    → Finishes (world es b t m)

finish_by :
    (x : Effect) (e : Event) (es : List Event) (b : ℕ → Bool) (t : ℕ → Thread) (m : ℕ → List Event)
    (known : List ℕ)
    → effect e ≡ x
    → Ready known (world (e ∷ es) b t m)
    → Next es
    → Finishes (world (e ∷ es) b t m)
finish_by plain e es b t m known x h next =
    after-Finishes (here then loader_calls x)
      (next b t m known (record { there = h.there; able = ground (arith, h.able) }))
finish_by (creates i p) e es b t m known x h next =
    after-Finishes
      (here then loader_creates x (not_present (t p) (ground (arith, h.able, h.there p))))
      (next b (set t p (created i)) m (p ∷ known)
        (record { there = there-creates known t p i h.there; able = ground (arith, h.able) }))
finish_by (wakes p) e es b t m known x h next = after-Finishes (here then loader_wakes x) (
    next b (set t p (wake (t p))) m known (record {
      there = λ q. present-set t p (wake (t p)) (present-wake (t p)) q ∙ h.there q;
      able = ground (arith, h.able);
    }))
finish_by (stops p) e es b t m known x h next =
    let t' = set t p (wake (t p)) in
    let d =
      drain (e ∷ es) (set b p true) p (set_self b p true) (t p) t' m (set_self t p (wake (t p)))
        (ground (arith, h.able, h.there p)) in
    after-Finishes
      (Reach-trans (here then loader_tells x) d.reached
        then loader_joins x (set_self b p true) d.gone)
      (next (set b p true) d.threads d.made known (record {
        there = λ q. d.same q ∙ present-set t p (wake (t p)) (present-wake (t p)) q ∙ h.there q;
        able = ground (arith, h.able);
      }))

finish : (es : List Event) → Next es
finish [] b t m known h = (_, here, refl)
finish (e ∷ es) b t m known h = finish_by (effect e) e es b t m known refl h (finish es)

-- Every step leaves calls that can be made.
Ready-Step : {w v : World} → Step w v → (ks : List ℕ) × Ready ks w → (ks : List ℕ) × Ready ks v
Ready-Step (loader_calls x) (ks, h) =
    (ks, record { there = h.there; able = ground (arith, h.able) })
Ready-Step (loader_creates {t = t} {i} {p} x new) (ks, h) =
    (p ∷ ks, record { there = there-creates ks t p i h.there; able = ground (arith, h.able) })
Ready-Step (loader_wakes {t = t} {p = p} x) (ks, h) =
    (ks, Ready-set p (wake (t p)) h (present-wake (t p)) (ground (arith, h.able)))
Ready-Step (loader_tells {t = t} {p = p} x) (ks, h) =
    (ks, Ready-set p (wake (t p)) h (present-wake (t p)) h.able)
Ready-Step (loader_joins x told gone) (ks, h) =
    (ks, record { there = h.there; able = ground (arith, h.able) })
Ready-Step (thread_enters p i was told) (ks, h) =
    (ks, Ready-set p (looping i 0) h (sym (ap present was)) h.able)
Ready-Step (thread_skips p i was told) (ks, h) =
    (ks, Ready-set p (exited i) h (sym (ap present was)) h.able)
Ready-Step (thread_rounds {told = told} p i n was e) (ks, h) =
    (ks, Ready-set p _ h (present_after told i (suc n) ∙ sym (ap present was)) h.able)
Ready-Step (thread_leaves p i n was) (ks, h) =
    (ks, Ready-set p (exited i) h (sym (ap present was)) h.able)

Ready-Reach : {w v : World} → Reach w v → (ks : List ℕ) × Ready ks w → (ks : List ℕ) × Ready ks v
Ready-Reach here h = h
Ready-Reach (r then st) h = Ready-Step st (Ready-Reach r h)

module _ (list : KernelList WaitThread) where
  open list use {entries}

  -- The module has no thread when it is loaded, gets a node for each thread that it creates, and no
  -- two of these have the same address. Then wherever the threads and the loading thread stand, they
  -- can go on to where the module is unloaded.
  pub unload_ends :
      (a : Answers) (s : State list) (w : World)
      → entries s.wait_threads_list ≡ []
      → Noded 80 0 a
      → AreDistinct a
      → Reach (start list a s) w
      → (v : World) × Reach w v × (v.left ≡ [])
  unload_ends a s w empty h distinct reach =
      let able = load_and_unload-can list a s empty h distinct in
      let (ks, can_go) = Ready-Reach reach ([], record { there = λ q. refl; able = able }) in
      finish w.left w.told w.threads w.made ks can_go
