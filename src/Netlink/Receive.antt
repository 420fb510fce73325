-- ===== src/Netlink/Receive.antt =====
-- What `nl_data_ready` does with a message, whatever the kernel answers.
use yu.Prelude.Calls.{count-append, collect-append, call_laws, collect, count}
use yu.Prelude.{
  ℕ, suc, ◌+◌, ◌≤◌, ◌≡◌, ◌≢◌, inl, inr, refl, Bool, true, false, none, some, List, [], ◌∷◌, ◌++◌,
  ◌==◌, ap₂, ◌∙◌, leb, if◌then◌else◌, length, Bool-cases, Option-cases, arith,
}
use yu.Prelude.CString.{NoNull, codes}
use yu.Prelude.Int.{ℤ, pos}
use yu.Prelude.Trace.{Run, run, done}
use yu.Netlink.{
  State, Reply, Skb, Event, skb_get, kfree_skb, netlink_unicast, sock_release, greeting, sendnlmsg,
  answer_loop, nl_data_ready, set_socket, netlink_init, netlink_exit,
}
use yu.Netlink.Send.{refusal, sendnlmsg-refusal, sendnlmsg-sent}

-- The references to the received buffer that a run takes and gives back, and the messages it sends.
abbrev pub is_get : Event → Bool
is_get skb_get = true
is_get _ = false

abbrev pub gets : List Event → ℕ
gets = count is_get

abbrev pub is_free : Event → Bool
is_free kfree_skb = true
is_free _ = false

abbrev pub frees : List Event → ℕ
frees = count is_free

abbrev pub is_unicast : Event → Bool
is_unicast (netlink_unicast sock portid p) = true
is_unicast _ = false

abbrev pub unicasts : List Event → ℕ
unicasts = count is_unicast

-- The calls of a run that release a socket.
abbrev pub releases_by : Event → List ℕ
releases_by (sock_release sock) = sock ∷ []
releases_by _ = []

abbrev pub releases : List Event → List ℕ
releases = collect releases_by

-- A header, if one is given, has room for the greeting. (`nlmsg_put` gives 1024 bytes.)
abbrev pub HasRoom : Reply → Type 0
HasRoom reply = elim reply.nlmsg_put [ none ↦ Unit {0} | some stale ↦ 19 ≤ length stale ]

-- The messages that one call of `sendnlmsg` sends.
abbrev pub answers : State → Reply → ℕ
answers s reply =
    if s.nl_sk == 0
    then 0
    else if reply.alloc_skb
    then elim reply.nlmsg_put [ none ↦ 0 | some stale ↦ 1 ]
    else 0

-- A run that ends, leaves the received buffer alone and sends `n` messages.
pub record Sends (r : Run Event (Unit {0})) (n : ℕ) : Type 0 where
  pub ended : r.outcome ≡ done tt
  no_get : gets r.calls ≡ 0
  no_free : frees r.calls ≡ 0
  count : unicasts r.calls ≡ n
  no_release : releases r.calls ≡ []

abbrev text : List ℕ
text = codes "I am from kernel!"

text-NoNull : NoNull text
text-NoNull = ground arith

granted :
    (s : State) (reply : Reply) (portid : ℕ)
    → refusal s reply portid ≡ none
    → (stale : List ℕ) × (s.nl_sk ≢ 0) × (reply.alloc_skb ≡ true) × (reply.nlmsg_put ≡ some stale)
granted s reply portid e = elim (Option-cases reply.nlmsg_put) [
  | inl p ↦ absurd (ground arith)
  | inr (stale, p) ↦ (stale, ground arith, ground arith, p)
]

Sends-refusal :
    (s : State) (reply : Reply) (portid : ℕ) (es : List Event)
    → refusal s reply portid ≡ some es
    → Sends (run es (done tt)) (answers s reply)
Sends-refusal s reply portid es e = record {
  ended = refl;
  no_get = ground arith;
  no_free = ground arith;
  count = ground arith;
  no_release = ground arith;
}

pub sendnlmsg-Sends :
    (s : State) (reply : Reply) (portid : ℕ)
    → HasRoom reply
    → Sends (sendnlmsg s reply (some greeting) portid) (answers s reply)
sendnlmsg-Sends s reply portid room = elim (Option-cases (refusal s reply portid)) [
  | inl e ↦
      let (stale, sock, alloc, put) = granted s reply portid e in
      let is_open : (s.nl_sk == 0) ≡ false = ground arith in
      let (x, kept, runs) =
        sendnlmsg-sent s reply text [] stale portid sock alloc put text-NoNull (rw put at room) in
      rw (runs, is_open, alloc, put)
        (record { ended = refl; no_get = refl; no_free = refl; count = refl; no_release = refl })
  | inr (es, e) ↦
      rw (sendnlmsg-refusal s reply portid text [] text-NoNull e)
        (Sends-refusal s reply portid es e)
]

-- One round of the loop in front of the others.
answer_loop-suc :
    (i : ℕ) (s : State) (replies : ℕ → Reply) (portid n : ℕ)
    → HasRoom (replies i)
    → Sends (answer_loop i s replies portid) n
    → Sends (answer_loop (suc i) s replies portid) (answers s (replies i) + n)
unfolding answer_loop
answer_loop-suc i s replies portid n room rest =
    let here = sendnlmsg-Sends s (replies i) portid room in
    let es = (sendnlmsg s (replies i) (some greeting) portid).calls in
    let fs = (answer_loop i s replies portid).calls in
    rw here.ended (record {
      ended = rest.ended;
      no_get = omega (arith, count-append is_get es fs, here.no_get, rest.no_get);
      no_free = omega (arith, count-append is_free es fs, here.no_free, rest.no_free);
      count = omega (arith, count-append is_unicast es fs, here.count, rest.count);
      no_release = collect-append releases_by es fs ∙ ap₂ ◌++◌ here.no_release rest.no_release;
    })

answer_loop-zero :
    (s : State) (replies : ℕ → Reply) (portid : ℕ) → Sends (answer_loop 0 s replies portid) 0
unfolding answer_loop
answer_loop-zero s replies portid = record {
  ended = refl;
  no_get = refl;
  no_free = refl;
  count = refl;
  no_release = refl;
}

-- Both rounds.
answer_loop-Sends :
    (s : State) (replies : ℕ → Reply) (portid : ℕ)
    → ((i : ℕ) → HasRoom (replies i))
    → Sends (answer_loop 2 s replies portid) (answers s (replies 1) + (answers s (replies 0) + 0))
answer_loop-Sends s replies portid room =
    answer_loop-suc 1 s replies portid _ (room 1)
      (answer_loop-suc 0 s replies portid 0 (room 0) (answer_loop-zero s replies portid))

-- Whatever the kernel answers, as long as each header has room for the greeting: `nl_data_ready`
-- ends; it sets `flag` exactly for a message that is long enough for a header; it sends one message
-- for each of the two rounds that is granted its buffers; and it gives back the reference that it
-- takes to the buffer, except for a message that is too short, whose reference it keeps.
pub nl_data_ready_balance :
    (s : State) (replies : ℕ → Reply) (skb : Skb)
    → ((i : ℕ) → HasRoom (replies i))
    → let r = nl_data_ready s replies skb in
      let fits = leb 16 skb.len in
      (r.outcome ≡ done (if fits then record s { flag = 1 } else s))
      × (gets r.calls ≡ frees r.calls + (if fits then 0 else 1))
      × (unicasts r.calls ≡ (if fits then answers s (replies 1) + answers s (replies 0) else 0))
unfolding nl_data_ready
nl_data_ready_balance s replies skb room =
    let two = answer_loop-Sends s replies skb.nlmsg_pid room in
    let es = (answer_loop 2 s replies skb.nlmsg_pid).calls in
    elim (Bool-cases (leb 16 skb.len)) [
      | inl long ↦
          rw (long, two.ended)
            (
              refl,
              omega (
                arith,
                count-append is_get es (kfree_skb ∷ []),
                count-append is_free es (kfree_skb ∷ []),
                two.no_get,
                two.no_free,
              ),
              omega (arith, count-append is_unicast es (kfree_skb ∷ []), two.count),
            )
      | inr short ↦ rw short (refl, refl, refl)
    ]

-- Whatever it is answered, `nl_data_ready` does not release the socket.
pub nl_data_ready_releases :
    (s : State) (replies : ℕ → Reply) (skb : Skb)
    → ((i : ℕ) → HasRoom (replies i))
    → releases (nl_data_ready s replies skb).calls ≡ []
unfolding nl_data_ready
nl_data_ready_releases s replies skb room =
    let two = answer_loop-Sends s replies skb.nlmsg_pid room in
    elim (Bool-cases (leb 16 skb.len)) [
      | inl long ↦ rw (long, two.ended) (simp call_laws two.no_release)
      | inr short ↦ rw short refl
    ]

-- `netlink_exit` behind `netlink_init` releases just the socket that this has created.
netlink_exit-init :
    (s : State) (sock : ℕ)
    → (s' : State) × (result : ℤ) × ((netlink_init s sock).outcome ≡ done (s', result))
      × (result ≡ (if sock == 0 then pos 1 else pos 0))
      × (releases (netlink_exit s').calls ≡ (if sock == 0 then [] else sock ∷ []))
unfolding netlink_init set_socket netlink_exit
netlink_exit-init s sock = (
  record s { nl_sk = sock },
  (if sock == 0 then pos 1 else pos 0),
  ground arith,
  refl,
  ground arith,
)
