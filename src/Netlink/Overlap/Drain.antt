-- ===== src/Netlink/Overlap/Drain.antt =====
-- The handlers of nl.c can always come to their end.
use yu.Prelude.Update.{set, set_self, set_again, set_same, ==→≡}
use yu.Prelude.{
  ℕ, zero, suc, ◌≡◌, inl, inr, refl, sym, ap, ◌∙◌, true, List, ◌==◌, ltb, if◌then◌else◌, Bool-cases,
  arith,
}
use yu.Prelude.Trace.{done}
use yu.Netlink.{State, Event, answer_round, finish_message}
use yu.Netlink.Receive.{HasRoom, sendnlmsg-Sends}
use yu.Netlink.Lifetime.{Message, Phase}
use yu.Netlink.Overlap.{
  Handler, idle, answering, ended, IsQuiet, World, world, answer, leave, Reach, here, ◌then◌,
}
use yu.Netlink.Overlap.Kept.{Roomy}

pub Reach-trans : {w v u : World} → Reach w v → Reach v u → Reach w u
Reach-trans r here = r
Reach-trans r (s then st) = Reach-trans r s then st

-- A handler that has come to its end.
abbrev pub finished : Handler → Handler
finished (answering x began left) = ended x began
finished h = h

pub finished-IsQuiet : (h : Handler) → IsQuiet (finished h)
finished-IsQuiet idle = tt
finished-IsQuiet (answering x began left) = tt
finished-IsQuiet (ended x began) = tt

finished-Roomy : (h : Handler) → Roomy h → Roomy (finished h)
finished-Roomy idle r = r
finished-Roomy (answering x began left) r = r
finished-Roomy (ended x began) r = r

answered :
    (m : State) (x : Message) (i : ℕ)
    → HasRoom (x.replies i)
    → (answer_round m (x.replies i) x.skb.nlmsg_pid).outcome ≡ done tt
unfolding answer_round
answered m x i room = rw (sendnlmsg-Sends m (x.replies i) x.skb.nlmsg_pid room).ended refl

-- What `w` can go on to: the phase is kept, and each handler stands as said.
abbrev pub GoesTo : World → (ℕ → Handler) → Type 0
GoesTo w hs = (v : World) × Reach w v × (v.phase ≡ w.phase) × ((q : ℕ) → v.handlers q ≡ hs q)

finish_one :
    (left : ℕ) (m : State) (ph : Phase) (hs : ℕ → Handler) (es : ℕ → List Event) (p : ℕ)
    (x : Message) (b : ℕ)
    → hs p ≡ answering x b left
    → ((i : ℕ) → HasRoom (x.replies i))
    → GoesTo (world m ph hs es) (set hs p (ended x b))
unfolding finish_message
finish_one zero m ph hs es p x b was room = (_, here then leave p x b was refl, refl, λ q. refl)
finish_one (suc i) m ph hs es p x b was room =
    let (v, r, phase, stands) =
      finish_one i m ph (set hs p (answering x b i)) _ p x b (set_self hs p (answering x b i))
        room in
    (
      v,
      Reach-trans (here then answer p x b i was (answered m x i (room i))) r,
      phase,
      λ q. stands q ∙ set_again hs p (answering x b i) (ended x b) q,
    )

finish_handler :
    (h : Handler) (w : World) (p : ℕ)
    → w.handlers p ≡ h
    → Roomy h
    → GoesTo w (set w.handlers p (finished h))
finish_handler idle w p was room = (w, here, refl, set_same w.handlers p idle was)
finish_handler (ended x b) w p was room = (w, here, refl, set_same w.handlers p (ended x b) was)
finish_handler (answering x b left) w p was room =
    finish_one left w.memory w.phase w.handlers w.made p x b was room

-- The handlers below `n` come to their end.
unfoldable pub finished_below : ℕ → (ℕ → Handler) → ℕ → Handler
finished_below n hs q = if ltb q n then finished (hs q) else hs q

finished_below-zero : (hs : ℕ → Handler) (q : ℕ) → hs q ≡ finished_below 0 hs q
unfolding finished_below
finished_below-zero hs q = ground arith

finished_below_self : (n : ℕ) (hs : ℕ → Handler) → finished_below n hs n ≡ hs n
unfolding finished_below
finished_below_self n hs = ground arith

finished_below-suc :
    (n : ℕ) (hs : ℕ → Handler) (q : ℕ)
    → set (finished_below n hs) n (finished (hs n)) q ≡ finished_below (suc n) hs q
unfolding finished_below
finished_below-suc n hs q = elim (Bool-cases (q == n)) [
  | inl same ↦
      let below : ltb q (suc n) ≡ true = ground arith in
      rw (same, below) (ap (λ p. finished (hs p)) (sym (==→≡ n q same)))
  | inr other ↦ ground arith
]

set-eq : (f g : ℕ → Handler) (p : ℕ) (v : Handler) (q : ℕ) → f q ≡ g q → set f p v q ≡ set g p v q
set-eq f g p v q h = ground arith

pub drain :
    (n : ℕ) (w : World) → ((q : ℕ) → Roomy (w.handlers q)) → GoesTo w (finished_below n w.handlers)
drain zero w room = (w, here, refl, finished_below-zero w.handlers)
drain (suc n) w room =
    let (v, r, phase, stands) = drain n w room in
    let (u, r', phase', stands') =
      finish_handler (w.handlers n) v n (stands n ∙ finished_below_self n w.handlers) (room n) in
    (
      u,
      Reach-trans r r',
      phase' ∙ phase,
      λ q.
          stands' q
          ∙ set-eq v.handlers (finished_below n w.handlers) n (finished (w.handlers n)) q (stands q)
          ∙ finished_below-suc n w.handlers q,
    )
