-- ===== src/Netlink/Overlap/Greetings.antt =====
-- The client unl.c and a handler of nl.c that overlaps with others: its message is handled while the
-- client's `sendmsg` waits, and the client then takes what the handler has sent.
use mathlib.Core.List.{map}
use yu.Prelude.Calls.{collect-append}
use yu.Prelude.{
  ℕ, suc, ◌+◌, ◌≤◌, ◌<◌, ◌≡◌, inl, inr, refl, sym, ap, ap₂, ◌∙◌, true, false, none, some, leb, List,
  [], ◌∷◌, ◌++◌, ◌==◌, if◌then◌else◌, length, get_elem?, append-nil, Bool-cases, arith,
}
use yu.Prelude.Int.{pos, negsuc, is_negative}
use yu.Prelude.CString.{c_string}
use yu.Prelude.Trace.{done}
use yu.Netlink.{State, kfree_skb, answer_round, show_message, sendnlmsg}
use yu.Netlink
use yu.Netlink.Lifetime.{Message, is_long, socket}
use yu.Netlink.Session.{skb_of, queued, queued_by, receive, Leaves, filled, sendnlmsg-Queues}
use yu.Netlink.Client
use yu.Netlink.Client.{Answers, is_minus_one, main}
use yu.Netlink.Client.Exit.{received, texts, FirstFailure, main-received}
use yu.Netlink.Overlap.{ended, World, Reach, start}
use yu.Netlink.Overlap.Seen.{◌⊑◌, ⊑-trans, round, seen}
use yu.Netlink.Overlap.Serial.{handlers_serial}

-- A queue of which `qs` is left at number `i`.
IsLeft : List (List ℕ) → ℕ → List (List ℕ) → Type 0
IsLeft queue i qs = (j : ℕ) → get_elem? queue (i + j) ≡ get_elem? qs j

IsLeft-head :
    (queue : List (List ℕ)) (i : ℕ) (qs : List (List ℕ))
    → IsLeft queue i qs
    → get_elem? queue i ≡ get_elem? qs 0
unfolding IsLeft
IsLeft-head queue i qs h = ap (get_elem? queue) (omega arith) ∙ h 0

IsLeft-tail :
    (queue : List (List ℕ)) (i : ℕ) (q : List ℕ) (qs : List (List ℕ))
    → IsLeft queue i (q ∷ qs)
    → IsLeft queue (i + 1) qs
unfolding IsLeft
IsLeft-tail queue i q qs h j = ap (get_elem? queue) (omega arith) ∙ h (suc j)

all-IsLeft : (queue : List (List ℕ)) → IsLeft queue 0 queue
unfolding IsLeft
all-IsLeft queue j = ap (get_elem? queue) (omega arith)

receive-none :
    (queue : List (List ℕ)) (i : ℕ)
    → get_elem? queue i ≡ none
    → receive queue i ≡ record { state = negsuc 0; payload = [] }
receive-none queue i h = rw (h, receive) refl

receive-some :
    (queue : List (List ℕ)) (i : ℕ) (p : List ℕ)
    → get_elem? queue i ≡ some p
    → receive queue i ≡ record { state = pos (length p); payload = p }
receive-some queue i p h = rw (h, receive) refl

-- It is received from its front on, and then nothing.
receive-FirstFailure :
    (queue : List (List ℕ)) (i : ℕ) (qs : List (List ℕ))
    → IsLeft queue i qs
    → FirstFailure (length qs) i (receive queue)
receive-FirstFailure queue i [] h =
    ap (λ r. is_negative r.state) (receive-none queue i (IsLeft-head queue i [] h))
receive-FirstFailure queue i (q ∷ qs) h = (
  ap (λ r. is_negative r.state) (receive-some queue i q (IsLeft-head queue i (q ∷ qs) h)),
  receive-FirstFailure queue (i + 1) qs (IsLeft-tail queue i q qs h),
)

texts-receive :
    (queue : List (List ℕ)) (i : ℕ) (qs : List (List ℕ))
    → IsLeft queue i qs
    → texts (length qs) i (receive queue) ≡ map c_string qs
texts-receive queue i [] h = refl
texts-receive queue i (q ∷ qs) h =
    ap₂ (λ r ts. c_string r.payload ∷ ts) (receive-some queue i q (IsLeft-head queue i (q ∷ qs) h))
      (texts-receive queue (i + 1) qs (IsLeft-tail queue i q qs h))

-- What a round queues that finds `sk` in `nl_sk`.
abbrev pub sent_by : ℕ → List ℕ → ℕ → List (List ℕ)
sent_by sk stale x = if sk == 0 then [] else filled stale x ∷ []

sendnlmsg-closed :
    (sk : ℕ) (x : Message) (i : ℕ)
    → (sk == 0) ≡ true
    → (sendnlmsg
        (record { nl_sk = sk; flag = 0 })
        (x.replies i)
        (some Netlink.greeting)
        x.skb.nlmsg_pid).calls
      ≡ []
unfolding sendnlmsg
sendnlmsg-closed sk x i h = rw h refl

round-queued :
    (sk sock : ℕ) (x : Message) (i : ℕ) (stale : List ℕ) (byte : ℕ)
    → sk ⊑ sock
    → Leaves (x.replies i) stale byte
    → queued sock x.skb.nlmsg_pid (round sk x i) ≡ sent_by sk stale byte
unfolding answer_round
round-queued sk sock x i stale byte below leaves = elim (Bool-cases (sk == 0)) [
  | inl none_open ↦
      ap (queued sock x.skb.nlmsg_pid) (sendnlmsg-closed sk x i none_open) ∙ rw none_open refl
  | inr open_ ↦
      let s : State = record { nl_sk = sk; flag = 0 } in
      let same : sk ≡ sock = elim below [ inl null ↦ absurd (ground arith) | inr e ↦ e ] in
      let q = sendnlmsg-Queues s (x.replies i) x.skb.nlmsg_pid stale byte (ground arith) leaves in
      rw open_ (ap (λ n. queued n x.skb.nlmsg_pid (round sk x i)) (sym same) ∙ q.queues)
]

seen-queued :
    (first second sock : ℕ) (x : Message) (stale₁ stale₀ : List ℕ) (x₁ x₀ : ℕ)
    → first ⊑ sock
    → second ⊑ sock
    → is_long x ≡ true
    → Leaves (x.replies 1) stale₁ x₁
    → Leaves (x.replies 0) stale₀ x₀
    → queued sock x.skb.nlmsg_pid (seen first second x)
      ≡ sent_by first stale₁ x₁ ++ sent_by second stale₀ x₀
unfolding show_message
seen-queued first second sock x stale₁ stale₀ x₁ x₀ h₁ h₀ long leaves₁ leaves₀ =
    let es = round first x 1 in
    let fs = round second x 0 in
    let by = queued_by sock x.skb.nlmsg_pid in
    rw long (
      collect-append by (es ++ fs) (kfree_skb ∷ [])
      ∙ append-nil (queued sock x.skb.nlmsg_pid (es ++ fs))
      ∙ collect-append by es fs
      ∙ ap₂ ◌++◌ (round-queued first sock x 1 stale₁ x₁ h₁ leaves₁)
          (round-queued second sock x 0 stale₀ x₀ h₀ leaves₀))

sent_few :
    (first second : ℕ) (stale₁ stale₀ : List ℕ) (x₁ x₀ : ℕ)
    → length (sent_by first stale₁ x₁ ++ sent_by second stale₀ x₀) ≤ 2
sent_few first second stale₁ stale₀ x₁ x₀ = ground arith

-- nl.c is loaded with both variables 0, and its handlers run, any number at a time, each with room
-- for the greeting in the headers that it is given. One of them has answered the message of the
-- client, and both its rounds were granted their buffers; the socket of the client was opened and
-- bound, its message allocated, and it may make three receives or more; it receives what
-- this handler has sent on the socket of the module to the port that the client has bound, in order,
-- and nothing else. Then the client ends with 1, when it has printed
-- what the rounds have sent that found the socket in `nl_sk`: two texts, that of the second round
-- alone, or none; it is two if the socket was in `nl_sk` when the handler was called; and `flag`
-- is 1.
pub overlap_greetings :
    (w : World) (p : ℕ) (x : Message) (began : ℕ) (stale₁ stale₀ : List ℕ) (x₁ x₀ : ℕ) (fuel : ℕ)
    (a : Answers)
    → Reach start w
    → w.handlers p ≡ ended x began
    → x.skb ≡ skb_of Client.greeting
    → Leaves (x.replies 1) stale₁ x₁
    → Leaves (x.replies 0) stale₀ x₀
    → is_minus_one a.socket ≡ false
    → is_negative a.bind ≡ false
    → a.malloc ≡ true
    → 2 < fuel
    → let r =
        main fuel (record a {
          recvmsg = receive (queued (socket w.phase) Client.source_port (w.made p));
        }) in
      (first : ℕ) × (second : ℕ) × (began ⊑ first)
      × (first ⊑ second)
      × (second ⊑ socket w.phase)
      × (r.outcome ≡ done (some (pos 1)))
      × (received r.calls ≡ map c_string (sent_by first stale₁ x₁ ++ sent_by second stale₀ x₀))
      × (w.memory.flag ≡ 1)
overlap_greetings w p x began stale₁ stale₀ x₁ x₀ fuel a r was skb leaves₁ leaves₀ socket_ok bound
      got enough =
    let (first, second, before, between, after, made, whole, flag) =
      handlers_serial w p x began r was in
    let long : is_long x ≡ true = ap (λ s. leb 16 s.len) skb in
    let sock = socket w.phase in
    let queue = queued sock Client.source_port (w.made p) in
    let shown =
      ap (queued sock Client.source_port) made
      ∙ ap (λ s. queued sock s.nlmsg_pid (seen first second x)) (sym skb)
      ∙ seen-queued first second sock x stale₁ stale₀ x₁ x₀ (⊑-trans between after) after long
          leaves₁ leaves₀ in
    let (end, prints, closing) =
      main-received (length queue) fuel (record a { recvmsg = receive queue }) socket_ok bound got
        (receive-FirstFailure queue 0 queue (all-IsLeft queue))
        (omega (arith, ap length shown, sent_few first second stale₁ stale₀ x₁ x₀)) in
    (
      first,
      second,
      before,
      between,
      after,
      end,
      prints ∙ texts-receive queue 0 queue (all-IsLeft queue) ∙ ap (map c_string) shown,
      elim flag [ inl short ↦ absurd (ground arith) | inr one ↦ one ],
    )
