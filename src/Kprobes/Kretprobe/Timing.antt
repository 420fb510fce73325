-- ===== src/Kprobes/Kretprobe/Timing.antt =====
-- The times that kretprobe_example.c reports, for any number of calls that overlap.
use yu.Prelude.{
  ℕ, ◌-◌, ◌≤◌, ◌≡◌, refl, sym, ap, ◌∙◌, Bool, true, false, Option, none, some, List, [], ◌∷◌, ◌++◌,
  ◌==◌, if◌then◌else◌, Bool-cases, inl, inr, ==_iff,
}
use yu.Prelude.Int.{ℤ, pos, is_zero}
use yu.Prelude.Trace.{Outcome, done, fault}
use yu.KernelTime.{KernelTime}
use yu.Kprobes.{Event, say_returned}
use yu.Kprobes.Kretprobe.{MyData, entry_handler, ret_handler}

module _ (time : KernelTime) where
  open time use {Ktime, ktime_sub, ktime_to_ns, ktime_to_ns-ktime_sub}

  -- A call of the function in the instance of a return probe: its entry, by a task with that `mm`,
  -- and its return, with that value; each at a time.
  pub data Pass : Type 0 where
    enter : ℕ → ℕ → Ktime → Pass
    leave : ℕ → ℕ → Ktime → Pass

  pub record Report : Type 0 where
    pub retval : ℕ
    pub delta : ℤ

  -- The instances: which of them wait for a return, and the private data of each.
  pub record Instances : Type 0 where
    pub waiting : ℕ → Bool
    pub data_of : ℕ → MyData time

  -- The function at `i` is `x`, and elsewhere as before.
  abbrev pub put : {A : Type 0} → ℕ → A → (ℕ → A) → ℕ → A
  put i x f j = if j == i then x else f j

  -- What a kretprobe does: on an entry it calls the entry handler, and waits for the return if that
  -- returns 0; on a return that it waits for it calls the handler.
  abbrev pub entered : ℕ → Outcome (MyData time × ℤ) → Instances → Instances
  entered i (done (d, r)) s = record {
    waiting = put i (is_zero r) s.waiting;
    data_of = put i d s.data_of;
  }
  entered i fault s = s

  abbrev pub reports : List Event → List Report
  reports [] = []
  reports (say_returned name retval delta ∷ es) =
      record { retval = retval; delta = delta } ∷ reports es
  reports (_ ∷ es) = reports es

  abbrev pub left : ℕ → Instances → Instances
  left i s = if s.waiting i then record s { waiting = put i false s.waiting } else s

  abbrev pub answered : List ℕ → ℕ → ℕ → Ktime → Instances → List Report
  answered func_name i retval now s =
      if s.waiting i
      then reports (ret_handler time func_name retval now (s.data_of i)).calls
      else []

  -- The instances and the reports, newest first, after some passes, newest first.
  pub after_passes : List ℕ → Instances → List Pass → Instances × List Report
  after_passes func_name s₀ [] = (s₀, [])
  after_passes func_name s₀ (enter i mm now ∷ past) =
      let before = after_passes func_name s₀ past in
      (entered i (entry_handler time mm now (before.0.data_of i)).outcome before.0, before.1)
  after_passes func_name s₀ (leave i retval now ∷ past) =
      let before = after_passes func_name s₀ past in
      (left i before.0, answered func_name i retval now before.0 ++ before.1)

  -- The time at which instance `i` was last entered, if it has not been left since, and not by a
  -- kernel thread.
  abbrev pub last_entry : ℕ → List Pass → Option Ktime
  last_entry i [] = none
  last_entry i (enter j mm now ∷ past) =
      if i == j then if mm == 0 then none else some now else last_entry i past
  last_entry i (leave j retval now ∷ past) = if i == j then none else last_entry i past

  abbrev pub timed : ℕ → Ktime → Option Ktime → List Report → List Report
  timed retval now none rest = rest
  timed retval now (some t) rest =
      record { retval = retval; delta = ktime_to_ns (ktime_sub now t) } ∷ rest

  -- What is to be reported, newest first: each return that answers an entry of a user process, with
  -- the time between the two.
  abbrev pub expected : List Pass → List Report
  expected [] = []
  expected (enter i mm now ∷ past) = expected past
  expected (leave i retval now ∷ past) = timed retval now (last_entry i past) (expected past)

  -- Instance `i` waits just for the return of a call that began at `o`, and has its time.
  Stamped : Instances → ℕ → Option Ktime → Type 0
  Stamped s i none = s.waiting i ≡ false
  Stamped s i (some t) = (s.waiting i ≡ true) × ((s.data_of i).entry_stamp ≡ t)

  Stamped-same :
      (s s' : Instances) (i : ℕ) (o : Option Ktime)
      → s'.waiting i ≡ s.waiting i
      → s'.data_of i ≡ s.data_of i
      → Stamped s i o
      → Stamped s' i o
  unfolding Stamped
  Stamped-same s s' i none w d h = w ∙ h
  Stamped-same s s' i (some t) w d h = (w ∙ h.0, ap (λ m. m.entry_stamp) d ∙ h.1)

  Stamped-put :
      (s : Instances) (i j : ℕ) (b : Bool) (d : ℕ → MyData time) (o : Option Ktime)
      → (i == j) ≡ false
      → d i ≡ s.data_of i
      → Stamped s i o
      → Stamped (record { waiting = put j b s.waiting; data_of = d }) i o
  Stamped-put s i j b d o other same h =
      Stamped-same s (record { waiting = put j b s.waiting; data_of = d }) i o (rw other refl) same
        h

  entered-Stamped :
      (s : Instances) (i j mm : ℕ) (now : Ktime) (o : Option Ktime)
      → Stamped s i o
      → Stamped
          (entered j (entry_handler time mm now (s.data_of j)).outcome s)
          i
          (if i == j then if mm == 0 then none else some now else o)
  unfolding entry_handler Stamped
  entered-Stamped s i j mm now o h = elim (Bool-cases (i == j)) [
    | inr other ↦ elim (Bool-cases (mm == 0)) [
      | inl kernel ↦
          rw (kernel, other)
            (Stamped-put s i j false (put j (s.data_of j) s.data_of) o other (rw other refl) h)
      | inr user ↦
          rw (user, other)
            (Stamped-put s i j true (put j (record { entry_stamp = now }) s.data_of) o other
              (rw other refl) h)
    ]
    | inl same ↦ elim (Bool-cases (mm == 0)) [
      | inl kernel ↦ rw (kernel, same) (rw same refl)
      | inr user ↦ rw (user, same) (rw same refl, rw same refl)
    ]
  ]

  left-Stamped :
      (s : Instances) (i j : ℕ) (o : Option Ktime)
      → Stamped s i o
      → Stamped (left j s) i (if i == j then none else o)
  unfolding Stamped
  left-Stamped s i j o h = elim (Bool-cases (i == j)) [
    | inr other ↦ elim (Bool-cases (s.waiting j)) [
      | inl wait ↦ rw (wait, other) (Stamped-put s i j false s.data_of o other refl h)
      | inr idle ↦ rw (idle, other) h
    ]
    | inl same ↦ elim (Bool-cases (s.waiting j)) [
      | inl wait ↦ rw (wait, same) (rw same refl)
      | inr idle ↦ rw (idle, same) (ap s.waiting ((==_iff i j).0 same) ∙ idle)
    ]
  ]

  passes-Stamped :
      (func_name : List ℕ) (s₀ : Instances) (ps : List Pass) (i : ℕ)
      → ((j : ℕ) → s₀.waiting j ≡ false)
      → Stamped (after_passes func_name s₀ ps).0 i (last_entry i ps)
  unfolding after_passes Stamped
  passes-Stamped func_name s₀ [] i h = h i
  passes-Stamped func_name s₀ (enter j mm now ∷ past) i h =
      let before = (after_passes func_name s₀ past).0 in
      entered-Stamped before i j mm now (last_entry i past) (passes-Stamped func_name s₀ past i h)
  passes-Stamped func_name s₀ (leave j retval now ∷ past) i h =
      let before = (after_passes func_name s₀ past).0 in
      left-Stamped before i j (last_entry i past) (passes-Stamped func_name s₀ past i h)

  answered-timed :
      (func_name : List ℕ) (s : Instances) (i retval : ℕ) (now : Ktime) (o : Option Ktime)
      (rest : List Report)
      → Stamped s i o
      → answered func_name i retval now s ++ rest ≡ timed retval now o rest
  unfolding ret_handler Stamped
  answered-timed func_name s i retval now none rest h = rw h refl
  answered-timed func_name s i retval now (some t) rest h = rw (h.0, h.1) refl

  -- With no instance in use before, however the calls of the function overlap, the module reports
  -- just the returns that answer an entry of a user process, in order, each with the value returned
  -- and the difference of the time of the return and the time of that entry.
  pub after_passes-expected :
      (func_name : List ℕ) (s₀ : Instances) (ps : List Pass)
      → ((j : ℕ) → s₀.waiting j ≡ false)
      → (after_passes func_name s₀ ps).1 ≡ expected ps
  unfolding after_passes
  after_passes-expected func_name s₀ [] h = refl
  after_passes-expected func_name s₀ (enter j mm now ∷ past) h =
      after_passes-expected func_name s₀ past h
  after_passes-expected func_name s₀ (leave j retval now ∷ past) h =
      let (s, log) = after_passes func_name s₀ past in
      rw (sym (after_passes-expected func_name s₀ past h)) (
        answered-timed func_name (after_passes func_name s₀ past).0 j retval now (last_entry j past)
          _ (passes-Stamped func_name s₀ past j h))

  -- On the return of a call that a user process entered at `n` nanoseconds, at `m` nanoseconds and
  -- not earlier, the module reports m - n nanoseconds, on top of what it has reported before.
  pub after_passes-leave :
      (func_name : List ℕ) (s₀ : Instances) (past : List Pass) (i retval m n : ℕ)
      (now stamp : Ktime)
      → ((j : ℕ) → s₀.waiting j ≡ false)
      → last_entry i past ≡ some stamp
      → ktime_to_ns stamp ≡ pos n
      → ktime_to_ns now ≡ pos m
      → n ≤ m
      → (after_passes func_name s₀ (leave i retval now ∷ past)).1
        ≡ record { retval = retval; delta = pos (m - n) } ∷ (after_passes func_name s₀ past).1
  after_passes-leave func_name s₀ past i retval m n now stamp idle last from to le =
      let delta = ktime_to_ns-ktime_sub now stamp m n to from le in
      after_passes-expected func_name s₀ (leave i retval now ∷ past) idle
      ∙ rw (last, delta)
          (ap (◌∷◌ (record { retval = retval; delta = pos (m - n) }))
            (sym (after_passes-expected func_name s₀ past idle)))
