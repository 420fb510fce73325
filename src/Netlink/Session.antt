-- ===== src/Netlink/Session.antt =====
-- The client unl.c and the module nl.c together: `sendmsg` runs `nl_data_ready`, and the messages that
-- this sends are those that the client receives.
use yu.Prelude.Calls.{collect, collect-append, call_laws}
use yu.Prelude.Update.{==_refl}
use yu.Prelude.{
  ◌==◌, ◌&&◌, if◌then◌else◌, ℕ, suc, ◌≤◌, ◌<◌, ◌≡◌, ◌≢◌, ◌↔◌, refl, sym, ap, ap₂, ◌∙◌, true, false,
  Option, none, some, List, [], ◌∷◌, ◌++◌, length, get_elem?, drop, arith,
}
use yu.Prelude.Int.{ℤ, pos, negsuc, is_negative}
use yu.Prelude.CString.{codes, c_string}
use yu.Prelude.Trace.{Run, done}
use yu.Netlink.{
  State, Reply, Skb, Event, netlink_unicast, say_received, sendnlmsg, answer_loop, nl_data_ready,
}
use yu.Netlink
use yu.Netlink.Send.{sendnlmsg-sent, c_string-garbage}
use yu.Netlink.Client
use yu.Netlink.Client.{Message, Received, Answers, is_minus_one, main}
use yu.Netlink.Client.Exit.{received, texts, FirstFailure, main-received}

-- What the kernel makes of a message that is sent to it.
abbrev pub skb_of : Message → Skb
skb_of m = record { len = m.nlmsg_len; nlmsg_pid = m.nlmsg_pid; payload = m.body }

-- The payloads that a run of the module sends on a socket to a port, in order.
abbrev pub queued_by : ℕ → ℕ → Event → List (List ℕ)
queued_by sock port (netlink_unicast sk portid p) =
    if sk == sock && portid == port then p ∷ [] else []
queued_by sock port _ = []

abbrev pub queued : ℕ → ℕ → List Event → List (List ℕ)
queued sock port = collect (queued_by sock port)

-- The texts that the module reports to have received, with their senders.
abbrev pub heard_by : Event → List (List ℕ × ℕ)
heard_by (say_received text portid) = (text, portid) ∷ []
heard_by _ = []

abbrev pub heard : List Event → List (List ℕ × ℕ)
heard = collect heard_by

-- `recvmsg` that does not wait: it takes the messages in their order, and returns -1 when there is none.
abbrev pub receive : List (List ℕ) → ℕ → Received
receive queue i = elim (get_elem? queue i) [
  | none ↦ record { state = negsuc 0; payload = [] }
  | some p ↦ record { state = pos (length p); payload = p }
]

-- The two programs, in a kernel that delivers to the client each message that the module sends on its
-- socket to the port that the client has bound.
pub module_run : State → (ℕ → Reply) → Run Event State
module_run s replies = nl_data_ready s replies (skb_of Client.greeting)

pub client_run : ℕ → State → (ℕ → Reply) → Answers → Run Client.Event (Option ℤ)
unfolding module_run
client_run fuel s replies a = main fuel (record a {
  recvmsg = receive (queued s.nl_sk Client.source_port (module_run s replies).calls);
})

abbrev pub text : List ℕ
text = codes "I am from kernel!"

pair-eq : {a b c d : List ℕ} → a ∷ b ∷ [] ≡ c ∷ d ∷ [] → (a ≡ c) × (b ≡ d)
pair-eq e = (cc, cc)

-- One round of the module: what it queues, and that it hears nothing.
pub record Queues (r : Run Event (Unit {0})) (sock portid : ℕ) (ps : List (List ℕ)) : Type 0 where
  pub ended : r.outcome ≡ done tt
  pub queues : queued sock portid r.calls ≡ ps
  hears : heard r.calls ≡ []

-- A header with room for the greeting, in which the byte behind the greeting is `x`.
abbrev pub Leaves : Reply → List ℕ → ℕ → Type 0
Leaves reply stale x =
    (reply.alloc_skb ≡ true)
    × (reply.nlmsg_put ≡ some stale)
    × (19 ≤ length stale)
    × (get_elem? stale 17 ≡ some x)

abbrev pub filled : List ℕ → ℕ → List ℕ
filled stale x = text ++ (x ∷ 0 ∷ drop 19 stale)

pub sendnlmsg-Queues :
    (s : State) (reply : Reply) (portid : ℕ) (stale : List ℕ) (x : ℕ)
    → s.nl_sk ≢ 0
    → Leaves reply stale x
    → Queues (sendnlmsg s reply (some Netlink.greeting) portid) s.nl_sk portid (filled stale x ∷ [])
sendnlmsg-Queues s reply portid stale x sock (alloc, put, room, byte) =
    let (y, kept, runs) =
      sendnlmsg-sent s reply text [] stale portid sock alloc put (ground arith) room in
    let same : y ≡ x = cc in
    rw runs (record {
      ended = refl;
      queues = rw (==_refl s.nl_sk, ==_refl portid) (ap (λ z. filled stale z ∷ []) same);
      hears = refl;
    })

answer_loop-Queues :
    (i : ℕ) (s : State) (replies : ℕ → Reply) (portid : ℕ) (stale : List ℕ) (x : ℕ)
    (ps : List (List ℕ))
    → s.nl_sk ≢ 0
    → Leaves (replies i) stale x
    → Queues (answer_loop i s replies portid) s.nl_sk portid ps
    → Queues (answer_loop (suc i) s replies portid) s.nl_sk portid (filled stale x ∷ ps)
unfolding answer_loop
answer_loop-Queues i s replies portid stale x ps sock leaves rest =
    let here = sendnlmsg-Queues s (replies i) portid stale x sock leaves in
    let es = (sendnlmsg s (replies i) (some Netlink.greeting) portid).calls in
    let fs = (answer_loop i s replies portid).calls in
    rw here.ended (record {
      ended = rest.ended;
      queues = collect-append (queued_by s.nl_sk portid) es fs ∙ ap₂ ◌++◌ here.queues rest.queues;
      hears = collect-append heard_by es fs ∙ ap₂ ◌++◌ here.hears rest.hears;
    })

answer_loop-none :
    (s : State) (replies : ℕ → Reply) (portid : ℕ)
    → Queues (answer_loop 0 s replies portid) s.nl_sk portid []
unfolding answer_loop
answer_loop-none s replies portid = record { ended = refl; queues = refl; hears = refl }

-- The module's run for the message of the client: what it has heard, and what it has queued.
record Answered (r : Run Event State) (s : State) (ps : List (List ℕ)) : Type 0 where
  ended : r.outcome ≡ done (record s { flag = 1 })
  queues : queued s.nl_sk Client.source_port r.calls ≡ ps
  hears : heard r.calls ≡ (codes "Hello you!", 100) ∷ []

module _ (s : State) (replies : ℕ → Reply) (sock : s.nl_sk ≢ 0) (stale₁ stale₀ : List ℕ) (x₁ x₀ : ℕ)
    (leaves₁ : Leaves (replies 1) stale₁ x₁) (leaves₀ : Leaves (replies 0) stale₀ x₀) where
  module_run-Answered : Answered (module_run s replies) s (filled stale₁ x₁ ∷ filled stale₀ x₀ ∷ [])
  unfolding module_run nl_data_ready c_string
  module_run-Answered =
      let one =
        answer_loop-Queues 0 s replies 100 stale₀ x₀ [] sock leaves₀
          (answer_loop-none s replies 100) in
      let two = answer_loop-Queues 1 s replies 100 stale₁ x₁ _ sock leaves₁ one in
      rw two.ended (record {
        ended = refl;
        queues = simp call_laws two.queues;
        hears = ap (◌∷◌ (codes "Hello you!", 100)) (simp call_laws two.hears);
      })

  -- With the socket of the module open, both its rounds granted their buffers, and in the client
  -- the socket opened and bound, the message allocated, and three receives or more; of what the module
  -- sends it receives just what is sent on that socket to the port that it has bound. The module ends
  -- with `flag` set to 1 and reports the text of the client, and the client ends with 1 when it has printed two texts. These are the greeting of
  -- the module, twice, exactly if the byte behind the greeting was null in both of the buffers.
  pub client_run-greetings :
      (fuel : ℕ) (a : Answers)
      → is_minus_one a.socket ≡ false
      → is_negative a.bind ≡ false
      → a.malloc ≡ true
      → 2 < fuel
      → ((module_run s replies).outcome ≡ done (record s { flag = 1 }))
        × (heard (module_run s replies).calls ≡ (codes "Hello you!", 100) ∷ [])
        × ((client_run fuel s replies a).outcome ≡ done (some (pos 1)))
        × (length (received (client_run fuel s replies a).calls) ≡ 2)
        × ((received (client_run fuel s replies a).calls ≡ text ∷ text ∷ [])
            ↔ ((x₁ ≡ 0) × (x₀ ≡ 0)))
  unfolding client_run
  client_run-greetings fuel a socket bound got enough =
      let m = module_run-Answered in
      let recv = receive (queued s.nl_sk Client.source_port (module_run s replies).calls) in
      let third : FirstFailure 2 0 recv = rw m.queues (refl, (refl, refl)) in
      let shown : texts 2 0 recv ≡ c_string (filled stale₁ x₁) ∷ c_string (filled stale₀ x₀) ∷ [] =
        rw m.queues refl in
      let (ended, prints, closing) =
        main-received 2 fuel (record a { recvmsg = recv }) socket bound got third enough in
      let reads₁ = c_string-garbage text x₁ (drop 19 stale₁) (ground arith) in
      let reads₀ = c_string-garbage text x₀ (drop 19 stale₀) (ground arith) in
      (
        m.ended,
        m.hears,
        ended,
        ap length prints,
        (
          λ e. let (t₁, t₀) = pair-eq (sym (prints ∙ shown) ∙ e) in (reads₁.0 t₁, reads₀.0 t₀),
          λ z. prints ∙ shown ∙ ap₂ (λ t u. t ∷ u ∷ []) (reads₁.1 z.0) (reads₀.1 z.1),
        ),
      )
