-- ===== src/Netlink/Client/Exit.antt =====
-- How unl.c ends, and what it has closed then.
use yu.Prelude.Calls.{collect}
use yu.Prelude.{
  ℕ, zero, suc, ◌+◌, ◌<◌, ◌≡◌, ◌⊎◌, inl, inr, refl, ap, true, false, Option, some, List, [], ◌∷◌,
  if◌then◌else◌, arith, Bool-cases,
}
use yu.Prelude.Int.{ℤ, pos, negsuc, is_negative}
use yu.Prelude.CString.{c_string}
use yu.Prelude.Trace.{Run, done}
use yu.Netlink.Client.{
  Received, Answers, Event, close, say_received, is_minus_one, recv_loop, exchange, main,
}

abbrev pub closes_by : Event → List ℤ
closes_by (close fd) = fd ∷ []
closes_by _ = []

abbrev pub closes : List Event → List ℤ
closes = collect closes_by

-- The texts of the messages that are printed.
abbrev pub received_by : Event → List (List ℕ)
received_by (say_received text) = text ∷ []
received_by _ = []

abbrev pub received : List Event → List (List ℕ)
received = collect received_by

-- The texts of `k` messages from number `i` on.
abbrev pub texts : ℕ → ℕ → (ℕ → Received) → List (List ℕ)
texts zero i recv = []
texts (suc k) i recv = c_string (recv i).payload ∷ texts k (i + 1) recv

-- Receive number `i + k` is the first, from `i` on, that fails.
abbrev pub FirstFailure : ℕ → ℕ → (ℕ → Received) → Type 0
FirstFailure zero i recv = is_negative (recv i).state ≡ true
FirstFailure (suc k) i recv = (is_negative (recv i).state ≡ false) × FirstFailure k (i + 1) recv

record Ends (r : Run Event (Option ℤ)) (result : ℤ) (closed : List ℤ) (shown : List (List ℕ))
    : Type 0 where
  ended : r.outcome ≡ done (some result)
  closing : closes r.calls ≡ closed
  showing : received r.calls ≡ shown

recv_loop-Ends :
    (k fuel i : ℕ) (fd : ℤ) (recv : ℕ → Received)
    → FirstFailure k i recv
    → k < fuel
    → Ends (recv_loop fuel fd recv i) (pos 1) [] (texts k i recv)
unfolding recv_loop
recv_loop-Ends k zero i fd recv f h = absurd (omega arith)
recv_loop-Ends zero (suc fuel) i fd recv f h =
    rw f (record { ended = refl; closing = refl; showing = refl })
recv_loop-Ends (suc k) (suc fuel) i fd recv f h =
    let rest = recv_loop-Ends k fuel (i + 1) fd recv f.1 (omega arith) in
    rw f.0 (record {
      ended = rest.ended;
      closing = rest.closing;
      showing = ap (◌∷◌ (c_string (recv i).payload)) rest.showing;
    })

exchange-Ends :
    (k fuel : ℕ) (a : Answers)
    → FirstFailure k 0 a.recvmsg
    → k < fuel
    → Ends (exchange fuel a) (pos 1) [] (texts k 0 a.recvmsg)
unfolding exchange
exchange-Ends k fuel a f h =
    let rest = recv_loop-Ends k fuel 0 a.socket a.recvmsg f h in
    elim (Bool-cases (is_minus_one a.sendmsg)) [
      | inl e ↦ rw e (record { ended = rest.ended; closing = rest.closing; showing = rest.showing })
      | inr e ↦ rw e (record { ended = rest.ended; closing = rest.closing; showing = rest.showing })
    ]

-- Once the socket is bound and the message allocated, the program ends at its first failing receive,
-- number `k`, as soon as it may make more than `k` receives: with 1, with the texts of the `k`
-- messages before printed in order, and with its socket still open.
pub main-received :
    (k fuel : ℕ) (a : Answers)
    → is_minus_one a.socket ≡ false
    → is_negative a.bind ≡ false
    → a.malloc ≡ true
    → FirstFailure k 0 a.recvmsg
    → k < fuel
    → ((main fuel a).outcome ≡ done (some (pos 1)))
      × (received (main fuel a).calls ≡ texts k 0 a.recvmsg)
      × (closes (main fuel a).calls ≡ [])
unfolding main
main-received k fuel a open_ok bound got f h =
    let rest = exchange-Ends k fuel a f h in
    simp (open_ok, bound, got) (rest.ended, rest.showing, rest.closing)

-- If the socket cannot be opened or bound, or the message not be allocated, the program ends with -1,
-- prints no message, and has closed the socket if it was opened.
pub main_early :
    (fuel : ℕ) (a : Answers)
    → (is_minus_one a.socket ≡ true) ⊎ (is_negative a.bind ≡ true) ⊎ (a.malloc ≡ false)
    → ((main fuel a).outcome ≡ done (some (negsuc 0)))
      × (received (main fuel a).calls ≡ [])
      × (closes (main fuel a).calls ≡ (if is_minus_one a.socket then [] else a.socket ∷ []))
unfolding main
main_early fuel a h = ground arith
