-- ===== src/Kprobes/Kretprobe/Pool.antt =====
-- The instances of kretprobe_example.c, of which there are `maxactive`.
use yu.Prelude.{
  ℕ, suc, ◌<◌, ◌≡◌, refl, ap, ap₂, ◌∙◌, true, false, Option, none, some, List, [], ◌∷◌, ◌++◌,
  length, ◌==◌, ltb, if◌then◌else◌, Bool-cases, inl, inr, arith,
}
use yu.Prelude.Int.{ℤ, pos, is_zero, is_negative}
use yu.Prelude.Trace.{Outcome, done, fault, run}
use yu.KernelTime.{KernelTime}
use yu.Kprobes.{Answers, unregister, say_unregistered, say_missed}
use yu.Kprobes.Kretprobe.{
  Kretprobe, my_kretprobe, MyData, entry_handler, ret_handler, kretprobe_init, kretprobe_exit,
}
use yu.Kprobes.Kretprobe.Timing.{Report, reports}

-- The first value with a key, and the list without it.
abbrev pub find : {A : Type 0} → ℕ → List (ℕ × A) → Option A
find c [] = none
find c ((d, x) ∷ xs) = if c == d then some x else find c xs

abbrev pub remove : {A : Type 0} → ℕ → List (ℕ × A) → List (ℕ × A)
remove c [] = []
remove c ((d, x) ∷ xs) = if c == d then xs else (d, x) ∷ remove c xs

module _ (time : KernelTime) where
  open time use {Ktime, ktime_sub, ktime_to_ns}

  -- A call of the function, by a number: its entry, by a task with that `mm`, and its return, with
  -- that value; each at a time.
  pub data Call : Type 0 where
    enter : ℕ → ℕ → Ktime → Call
    leave : ℕ → ℕ → Ktime → Call

  -- The calls that hold an instance, with its private data, and the count of the calls that found
  -- none.
  pub record Pool : Type 0 where
    pub held : List (ℕ × MyData time)
    pub nmissed : ℕ

  -- What the core does: an entry takes an instance, with the data that its last user left, and gives
  -- it back if the entry handler does not return 0; without a free one it is only counted.
  abbrev keep : ℕ → Outcome (MyData time × ℤ) → Pool → Pool
  keep c (done (d, r)) p = if is_zero r then record p { held = (c, d) ∷ p.held } else p
  keep c fault p = p

  abbrev entered : ℕ → MyData time → ℕ → ℕ → Ktime → Pool → Pool
  entered maxactive stale c mm now p =
      if ltb (length p.held) maxactive
      then keep c (entry_handler time mm now stale).outcome p
      else record p { nmissed = suc p.nmissed }

  abbrev reported : List ℕ → ℕ → Ktime → Option (MyData time) → List (Report time)
  reported func_name retval now none = []
  reported func_name retval now (some d) =
      reports time (ret_handler time func_name retval now d).calls

  -- The pool and the reports, newest first, after some entries and returns, newest first. A return
  -- calls the handler if its call holds an instance, which it gives back.
  pub after_calls : Kretprobe → MyData time → List Call → Pool × List (Report time)
  after_calls my stale [] = (record { held = []; nmissed = my.nmissed }, [])
  after_calls my stale (enter c mm now ∷ past) =
      let (p, log) = after_calls my stale past in (entered my.maxactive stale c mm now p, log)
  after_calls my stale (leave c retval now ∷ past) =
      let (p, log) = after_calls my stale past in
      (
        record p { held = remove c p.held },
        reported my.symbol_name retval now (find c p.held) ++ log,
      )

  -- The calls of user processes that have not returned, with the times of their entries.
  abbrev pub open_calls : List Call → List (ℕ × Ktime)
  open_calls [] = []
  open_calls (enter c mm now ∷ past) =
      if mm == 0 then open_calls past else (c, now) ∷ open_calls past
  open_calls (leave c retval now ∷ past) = remove c (open_calls past)

  abbrev timed : ℕ → Ktime → Option Ktime → List (Report time)
  timed retval now none = []
  timed retval now (some t) = record { retval = retval; delta = ktime_to_ns (ktime_sub now t) } ∷ []

  -- What is to be reported: each return of such a call, with the time since its entry.
  abbrev pub due : List Call → List (Report time)
  due [] = []
  due (enter c mm now ∷ past) = due past
  due (leave c retval now ∷ past) = timed retval now (find c (open_calls past)) ++ due past

  -- At each entry fewer than `n` calls of user processes are open.
  abbrev pub Fits : ℕ → List Call → Type 0
  Fits n [] = Unit {0}
  Fits n (enter c mm now ∷ past) = (length (open_calls past) < n) × Fits n past
  Fits n (leave c retval now ∷ past) = Fits n past

  abbrev pub stamped : List (ℕ × Ktime) → List (ℕ × MyData time)
  stamped [] = []
  stamped ((c, t) ∷ xs) = (c, record { entry_stamp = t }) ∷ stamped xs

  length-stamped : (xs : List (ℕ × Ktime)) → length (stamped xs) ≡ length xs
  length-stamped [] = refl
  length-stamped (x ∷ xs) = ap suc (length-stamped xs)

  remove-stamped : (c : ℕ) (xs : List (ℕ × Ktime)) → remove c (stamped xs) ≡ stamped (remove c xs)
  remove-stamped c [] = refl
  remove-stamped c ((d, t) ∷ xs) = elim (Bool-cases (c == d)) [
    | inl e ↦ rw e refl
    | inr e ↦ rw e (ap (◌∷◌ (d, record { entry_stamp = t })) (remove-stamped c xs))
  ]

  reported-stamped :
      (func_name : List ℕ) (c retval : ℕ) (now : Ktime) (xs : List (ℕ × Ktime))
      → reported func_name retval now (find c (stamped xs)) ≡ timed retval now (find c xs)
  unfolding ret_handler
  reported-stamped func_name c retval now [] = refl
  reported-stamped func_name c retval now ((d, t) ∷ xs) = elim (Bool-cases (c == d)) [
    | inl e ↦ rw e refl
    | inr e ↦ rw e (reported-stamped func_name c retval now xs)
  ]

  -- The pool and the reports where the calls in `ps` fit, and `n` were missed before.
  pub record Served (r : Pool × List (Report time)) (ps : List Call) (n : ℕ) : Type 0 where
    pub holds : r.0.held ≡ stamped (open_calls ps)
    pub missed : r.0.nmissed ≡ n
    pub log : r.1 ≡ due ps

  after_calls-Served :
      (my : Kretprobe) (stale : MyData time) (ps : List Call)
      → Fits my.maxactive ps
      → Served (after_calls my stale ps) ps my.nmissed
  unfolding after_calls entry_handler
  after_calls-Served my stale [] h = record { holds = refl; missed = refl; log = refl }
  after_calls-Served my stale (enter c mm now ∷ past) (room, h) =
      let before = after_calls-Served my stale past h in
      let free : ltb (length (after_calls my stale past).0.held) my.maxactive ≡ true =
        rw (before.holds, length-stamped (open_calls past)) (ground (arith, room)) in
      elim (Bool-cases (mm == 0)) [
        | inl kernel ↦
            rw (free, kernel)
              (record { holds = rw kernel before.holds; missed = before.missed; log = before.log })
        | inr user ↦
            rw (free, user)
              (record {
                holds = rw user (ap (◌∷◌ (c, record { entry_stamp = now })) before.holds);
                missed = before.missed;
                log = before.log;
              })
      ]
  after_calls-Served my stale (leave c retval now ∷ past) h =
      let before = after_calls-Served my stale past h in
      record {
        holds = ap (remove c) before.holds ∙ remove-stamped c (open_calls past);
        missed = before.missed;
        log =
            ap₂ ◌++◌
              (ap (λ (xs : List (ℕ × MyData time)). reported my.symbol_name retval now (find c xs))
                  before.holds
                ∙ reported-stamped my.symbol_name c retval now (open_calls past))
              before.log;
      }

  -- The module is loaded, and while it is, fewer than 20 calls of user processes are open at each
  -- entry. Then the module reports just the returns of these calls, in order, each with the value
  -- returned and the time since its entry, however the calls overlap; and when it is unloaded it
  -- reports that it has missed none.
  pub kretprobe_init-served :
      (a : Answers) (func_name : List ℕ) (stale : MyData time) (ps : List Call)
      → is_negative a.ret ≡ false
      → Fits 20 ps
      → (my : Kretprobe) × ((kretprobe_init a func_name my_kretprobe).outcome ≡ done (my, pos 0))
        × ((after_calls my stale ps).1 ≡ due ps)
        × (kretprobe_exit (record my { nmissed = (after_calls my stale ps).0.nmissed })
            ≡ run (unregister ∷ say_unregistered a.addr ∷ say_missed 0 func_name ∷ []) (done tt))
  unfolding kretprobe_init kretprobe_exit
  kretprobe_init-served a func_name stale ps loaded fits =
      let my = record my_kretprobe { symbol_name = func_name; addr = a.addr } in
      let s = after_calls-Served my stale ps fits in
      (
        my,
        rw loaded refl,
        s.log,
        ap
            (λ (n : ℕ).
              run (unregister ∷ say_unregistered a.addr ∷ say_missed n func_name ∷ []) (done tt))
            s.missed,
      )
