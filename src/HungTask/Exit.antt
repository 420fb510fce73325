-- ===== src/HungTask/Exit.antt =====
-- The unloading of hung_task.c, which waits for its timer.
use yu.Prelude.Calls.{call_laws, collect}
use yu.Prelude.{
  ℕ, zero, suc, ◌+◌, ◌<◌, ◌≡◌, refl, ap, Bool, true, false, Option, none, some, List, [], ◌∷◌,
  arith,
}
use yu.Prelude.Int.{ℤ}
use yu.Prelude.Trace.{Run, done}
use yu.KernelSync.{KernelSync}
use yu.HungTask.{Event, say_remaining, wait_loop, say_goodbye, exit_hung_task_test, quotient}

abbrev pub printed_by : Event → List ℤ
printed_by (say_remaining r) = r ∷ []
printed_by _ = []

abbrev pub printed : List Event → List ℤ
printed = collect printed_by

-- Round `i + k` is the first, from `i` on, in which the timer is not active.
abbrev pub FirstIdle : ℕ → ℕ → (ℕ → Bool) → Type 0
FirstIdle zero i active = active i ≡ false
FirstIdle (suc k) i active = (active i ≡ true) × FirstIdle k (i + 1) active

-- The seconds that remain in `k` rounds from `i` on.
abbrev pub seconds : ℕ → ℕ → (ℕ → ℤ) → List ℤ
seconds zero i remaining = []
seconds (suc k) i remaining = quotient (remaining i) 1000000000 ∷ seconds k (i + 1) remaining

record Waits (r : Run Event (Option (Unit {0}))) (lines : List ℤ) : Type 0 where
  ended : r.outcome ≡ done (some tt)
  lines_lem : printed r.calls ≡ lines

wait_loop-Waits :
    (k fuel i : ℕ) (active : ℕ → Bool) (remaining : ℕ → ℤ)
    → FirstIdle k i active
    → k < fuel
    → Waits (wait_loop fuel i active remaining) (seconds k i remaining)
unfolding wait_loop
wait_loop-Waits k zero i active remaining h le = absurd (omega arith)
wait_loop-Waits zero (suc fuel) i active remaining h le =
    rw h (record { ended = refl; lines_lem = refl })
wait_loop-Waits (suc k) (suc fuel) i active remaining h le =
    let rest = wait_loop-Waits k fuel (i + 1) active remaining h.1 (omega arith) in
    rw h.0 (record {
      ended = rest.ended;
      lines_lem = ap (◌∷◌ (quotient (remaining i) 1000000000)) rest.lines_lem;
    })

-- If the timer is first found inactive in round `k`, `exit_hung_task_test` ends, given more than `k`
-- rounds, and has shown the whole seconds that remained in each of the `k` rounds before.
pub exit_waits :
    (k fuel : ℕ) (active : ℕ → Bool) (remaining : ℕ → ℤ)
    → FirstIdle k 0 active
    → k < fuel
    → ((exit_hung_task_test fuel active remaining).outcome ≡ done (some tt))
      × (printed (exit_hung_task_test fuel active remaining).calls ≡ seconds k 0 remaining)
unfolding exit_hung_task_test say_goodbye
exit_waits k fuel active remaining h le =
    let w = wait_loop-Waits k fuel 0 active remaining h le in
    let es = (wait_loop fuel 0 active remaining).calls in
    rw w.ended (refl, simp call_laws w.lines_lem)

module _ (sync : KernelSync) where
  open sync use {Timer, expires, is_locked}

  -- `hrtimer_active`: the alarm is still to come.
  abbrev pub is_active : Timer → Bool
  is_active timer = elim (expires timer) [ none ↦ false | some e ↦ true ]
