-- ===== src/Netlink/Overlap/Seen.antt =====
-- What a handler of nl.c has done, by the values of `nl_sk` that its rounds have read.
use yu.Prelude.{
  ℕ, zero, suc, ◌≡◌, ◌⊎◌, inl, inr, refl, ◌∙◌, true, List, [], ◌∷◌, ◌++◌, if◌then◌else◌,
}
use yu.Netlink.{State, Event, kfree_skb, fill_and_send, sendnlmsg, answer_round}
use yu.Netlink.Lifetime.{Message, is_long}
use yu.Netlink.Overlap.{Handler, idle, answering, ended, opening}

-- `nl_sk` goes from 0 to the socket, once: what it can be after it was `a`.
infix 50 ◌⊑◌
abbrev pub ◌⊑◌ : ℕ → ℕ → Type 0
a ⊑ b = (a ≡ 0) ⊎ (a ≡ b)

pub ⊑-trans : {a b c : ℕ} → a ⊑ b → b ⊑ c → a ⊑ c
⊑-trans (inl none) h = inl none
⊑-trans (inr same) (inl none) = inl (same ∙ none)
⊑-trans (inr same) (inr next) = inr (same ∙ next)

-- The calls of a round that finds `a` in `nl_sk`.
abbrev pub round : ℕ → Message → ℕ → List Event
round a x i = (answer_round (record { nl_sk = a; flag = 0 }) (x.replies i) x.skb.nlmsg_pid).calls

-- All calls of a handler whose rounds find `a` and `b`.
abbrev pub seen : ℕ → ℕ → Message → List Event
seen a b x =
    if is_long x then ((opening x ++ round a x 1) ++ round b x 0) ++ (kfree_skb ∷ []) else opening x

-- What a handler has done, where it was called with `began` in `nl_sk`, and that is now `now`.
abbrev pub Done : Handler → List Event → ℕ → Type 0
Done idle es now = es ≡ []
Done (answering x began zero) es now =
    (a : ℕ) × (b : ℕ) × (began ⊑ a)
    × (a ⊑ b)
    × (b ⊑ now)
    × (is_long x ≡ true)
    × (es ≡ (opening x ++ round a x 1) ++ round b x 0)
Done (answering x began (suc zero)) es now =
    (a : ℕ) × (began ⊑ a) × (a ⊑ now) × (is_long x ≡ true) × (es ≡ opening x ++ round a x 1)
Done (answering x began (suc (suc i))) es now =
    (i ≡ 0) × (began ⊑ now) × (is_long x ≡ true) × (es ≡ opening x)
Done (ended x began) es now =
    (a : ℕ) × (b : ℕ) × (began ⊑ a) × (a ⊑ b) × (b ⊑ now) × (es ≡ seen a b x)

-- A round depends on nothing but `nl_sk` and its replies.
pub round_lem :
    (m : State) (x : Message) (i : ℕ)
    → (answer_round m (x.replies i) x.skb.nlmsg_pid).calls ≡ round m.nl_sk x i
unfolding answer_round sendnlmsg fill_and_send
round_lem m x i = refl
