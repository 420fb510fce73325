-- ===== src/Ding/Ticks.antt =====
-- The calls of `send_ding` by the loop, once a second.
use yu.Prelude.{
  ℕ, suc, ◌≡◌, ◌≢◌, refl, Bool, true, false, [], ◌∷◌, ◌==◌, if◌then◌else◌, Bool-cases, inl, inr,
  arith,
}
use yu.Prelude.Calls.{count}
use yu.Prelude.Int.{ℤ, is_zero}
use yu.Prelude.Trace.{Run, ◌>>=◌, pure, run, done, fault}
use yu.Ding.{Event, Answers, looping, new_signal, send, g_print, send_ding, main}

-- What GLib promises of a function that is called once a second: its calls in a number of seconds. It
-- is called again as long as it has not returned FALSE, and the result says whether it is still to be
-- called.
pub record Timeouts : Type 0 where
  pub ticks : Run Event ℤ → ℕ → Run Event Bool
  pub ticks_none : (f : Run Event ℤ) → ticks f 0 ≡ pure true
  pub ticks_next :
      (f : Run Event ℤ) (n : ℕ)
      → ticks f (suc n) ≡ (f >>= λ again. if is_zero again then pure false else ticks f n)

-- The messages that are made, and the signals that are sent or reported.
abbrev pub is_new : Event → Bool
is_new (new_signal m) = true
is_new _ = false

abbrev pub is_sent : Event → Bool
is_sent (send bus m) = true
is_sent (g_print text) = true
is_sent _ = false

send_ding-fault : (a : Answers) (bus : ℕ) → send_ding a bus ≡ run (new_signal a.message ∷ []) fault
unfolding send_ding
send_ding-fault a bus = elim (Bool-cases (a.message == 0)) [
  | inl null ↦ rw null refl
  | inr made ↦ rw made refl
]

-- There is a bus. Then the program comes to its loop with that bus, and in whatever number of seconds
-- that is not 0 there, it makes one message and faults: it neither sends a signal nor reports one,
-- whether it has got a message or a null pointer.
pub ticks-fault :
    (loop : Timeouts) (a : Answers) (n : ℕ)
    → a.bus ≢ 0
    → let r = loop.ticks (send_ding a a.bus) (suc n) in
      ((main a).outcome ≡ done (looping a.bus))
      × (r.outcome ≡ fault)
      × (count is_new r.calls ≡ 1)
      × (count is_sent r.calls ≡ 0)
unfolding main
ticks-fault loop a n bus = (
  ground (arith, bus),
  rw (loop.ticks_next (send_ding a a.bus) n, send_ding-fault a a.bus) refl,
  rw (loop.ticks_next (send_ding a a.bus) n, send_ding-fault a a.bus) refl,
  rw (loop.ticks_next (send_ding a a.bus) n, send_ding-fault a a.bus) refl,
)
