-- ===== src/Netlink/Overlap/Kept.antt =====
-- What holds of each handler of nl.c at every point.
use yu.Prelude.Update.{set}
use yu.Prelude.{
  ℕ, zero, suc, ◌≡◌, ◌⊎◌, inl, inr, refl, sym, ap, ◌∙◌, true, false, List, [], ◌∷◌, ◌++◌, ◌==◌,
  append-nil, Bool-cases, arith,
}
use yu.Prelude.Trace.{done}
use yu.Netlink.{
  State, Event, kfree_skb, answer_round, answer_loop, show_message, finish_message, sendnlmsg,
  fill_and_send, nl_data_ready,
}
use yu.Netlink.Receive.{HasRoom, sendnlmsg-Sends}
use yu.Netlink.Lifetime.{Message, is_long}
use yu.Netlink.Overlap.{Handler, idle, answering, ended, opening, opened}
use yu.Netlink.Overlap.Seen.{◌⊑◌, ⊑-trans, round, seen, Done, round_lem}

-- Where both rounds find the same socket, the handler is one run of `nl_data_ready`.
pub seen-whole :
    (m : State) (x : Message)
    → ((i : ℕ) → HasRoom (x.replies i))
    → seen m.nl_sk m.nl_sk x ≡ (nl_data_ready m x.replies x.skb).calls
unfolding answer_round answer_loop show_message nl_data_ready sendnlmsg fill_and_send
seen-whole m x room =
    let first = sendnlmsg-Sends m (x.replies 1) x.skb.nlmsg_pid (room 1) in
    let second = sendnlmsg-Sends m (x.replies 0) x.skb.nlmsg_pid (room 0) in
    elim (Bool-cases (is_long x)) [
      | inl long ↦ rw (long, first.ended, second.ended) (simp append-nil)
      | inr short ↦ rw short refl
    ]

found : (a b c d : ℕ) → a ⊑ b → b ⊑ c → c ⊑ d → (a ≡ 0) ⊎ ((b ≡ d) × (c ≡ d))
found a b c d h k l = ground arith

pub found_same :
    (m : State) (x : Message) (began first second : ℕ) {es : List Event}
    → began ⊑ first
    → first ⊑ second
    → second ⊑ m.nl_sk
    → ((i : ℕ) → HasRoom (x.replies i))
    → es ≡ seen first second x
    → (began ≡ 0) ⊎ (es ≡ (nl_data_ready m x.replies x.skb).calls)
found_same m x began first second before between after room made =
    elim (found began first second m.nl_sk before between after) [
      | inl early ↦ inl early
      | inr (same, same') ↦ inr (
          made
          ∙ ap (λ a. seen a second x) same
          ∙ ap (λ b. seen m.nl_sk b x) same'
          ∙ seen-whole m x room)
    ]

-- What a handler's message is known to be.
abbrev pub Roomy : Handler → Type 0
Roomy idle = Unit {0}
Roomy (answering x began left) = (i : ℕ) → HasRoom (x.replies i)
Roomy (ended x began) = (i : ℕ) → HasRoom (x.replies i)

abbrev pub Flagged : Handler → ℕ → Type 0
Flagged (ended x began) flag = (is_long x ≡ false) ⊎ (flag ≡ 1)
Flagged _ flag = Unit {0}

pub record At (m : State) (hd : Handler) (es : List Event) : Type 0 where
  pub does : Done hd es m.nl_sk
  pub roomy : Roomy hd
  pub flagged : Flagged hd m.flag

-- One handler goes on.
pub At-set :
    (m : State) (hs : ℕ → Handler) (made : ℕ → List Event) (p : ℕ) (v : Handler) (es : List Event)
    → ((q : ℕ) → At m (hs q) (made q))
    → At m v es
    → (q : ℕ) → At m (set hs p v q) (set made p es q)
At-set m hs made p v es h new q = elim (Bool-cases (q == p)) [
  | inl same ↦ rw same new
  | inr other ↦ rw other (h q)
]

-- The variables change as a step changes them.
Done-next : (hd : Handler) (es : List Event) (a b : ℕ) → a ⊑ b → Done hd es a → Done hd es b
Done-next idle es a b le d = d
Done-next (answering x began zero) es a b le (f, s, h, k, l, long, made) =
    (f, s, h, k, ⊑-trans l le, long, made)
Done-next (answering x began (suc zero)) es a b le (f, h, k, long, made) =
    (f, h, ⊑-trans k le, long, made)
Done-next (answering x began (suc (suc i))) es a b le (none_left, h, long, made) =
    (none_left, ⊑-trans h le, long, made)
Done-next (ended x began) es a b le (f, s, h, k, l, made) = (f, s, h, k, ⊑-trans l le, made)

Flagged-next : (hd : Handler) (f g : ℕ) → (g ≡ f) ⊎ (g ≡ 1) → Flagged hd f → Flagged hd g
Flagged-next (ended x began) f g new (inl short) = inl short
Flagged-next (ended x began) f g (inl same) (inr one) = inr (same ∙ one)
Flagged-next (ended x began) f g (inr one) (inr old) = inr one
Flagged-next idle f g new h = tt
Flagged-next (answering x began left) f g new h = tt

pub At-next :
    (m n : State) (hd : Handler) (es : List Event)
    → m.nl_sk ⊑ n.nl_sk
    → (n.flag ≡ m.flag) ⊎ (n.flag ≡ 1)
    → At m hd es
    → At n hd es
At-next m n hd es le new h = record {
  does = Done-next hd es m.nl_sk n.nl_sk le h.does;
  roomy = h.roomy;
  flagged = Flagged-next hd m.flag n.flag new h.flagged;
}

-- A handler is called.
pub opened-At :
    (m : State) (x : Message)
    → ((i : ℕ) → HasRoom (x.replies i))
    → At m (opened x m.nl_sk) (opening x)
opened-At m x room = elim (Bool-cases (is_long x)) [
  | inl long ↦
      rw long (record { does = (refl, inr refl, long, rw long refl); roomy = room; flagged = tt })
  | inr short ↦ rw short (record {
    does = (m.nl_sk, m.nl_sk, inr refl, inr refl, inr refl, rw short refl);
    roomy = room;
    flagged = inl short;
  })
]

-- A round and the end of a handler.
pub answered-At :
    (m : State) (x : Message) (b i : ℕ) (es : List Event)
    → At m (answering x b (suc i)) es
    → At m (answering x b i) (es ++ (answer_round m (x.replies i) x.skb.nlmsg_pid).calls)
answered-At m x b zero es h =
    let (a, before, after, long, made) = h.does in
    record {
      does = (
        a,
        m.nl_sk,
        before,
        after,
        inr refl,
        long,
        ap (◌++◌ es) (round_lem m x 0) ∙ ap (λ fs. fs ++ round m.nl_sk x 0) made,
      );
      roomy = h.roomy;
      flagged = tt;
    }
answered-At m x b (suc zero) es h =
    let (none_left, before, long, made) = h.does in
    record {
      does = (
        m.nl_sk,
        before,
        inr refl,
        long,
        ap (◌++◌ es) (round_lem m x 1) ∙ ap (λ fs. fs ++ round m.nl_sk x 1) made,
      );
      roomy = h.roomy;
      flagged = tt;
    }
answered-At m x b (suc (suc i)) es h = absurd (omega (arith, h.does.0))

seen-long :
    (a b : ℕ) (x : Message)
    → is_long x ≡ true
    → seen a b x ≡ ((opening x ++ round a x 1) ++ round b x 0) ++ (kfree_skb ∷ [])
seen-long a b x long = rw long refl

pub finish_message_memory :
    (m m' : State) → (finish_message m).outcome ≡ done m' → (m.nl_sk ≡ m'.nl_sk) × (m'.flag ≡ 1)
unfolding finish_message
finish_message_memory m m' e = ground arith

pub left-At :
    (m m' : State) (x : Message) (b : ℕ) (es : List Event)
    → (finish_message m).outcome ≡ done m'
    → At m (answering x b 0) es
    → At m' (ended x b) (es ++ (finish_message m).calls)
unfolding finish_message
left-At m m' x b es e h =
    let (a, c, before, between, after, long, made) = h.does in
    let (sk, flag) = finish_message_memory m m' e in
    record {
      does = (
        a,
        c,
        before,
        between,
        ⊑-trans after (inr sk),
        ap (λ fs. fs ++ (kfree_skb ∷ [])) made ∙ sym (seen-long a c x long),
      );
      roomy = h.roomy;
      flagged = inr flag;
    }
