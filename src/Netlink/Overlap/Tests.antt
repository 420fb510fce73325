-- ===== src/Netlink/Overlap/Tests.antt =====
-- Two handlers of nl.c that overlap while the socket is assigned.
use yu.Prelude.Update.{set}
use mathlib.Core.List.{map}
use yu.Prelude.CString.{c_string}
use yu.Prelude.{some, ℕ, ◌≡◌, ◌⊎◌, refl, false, List, [], ◌++◌, arith}
use yu.Prelude.Int.{pos}
use yu.Prelude.Trace.{done}
use yu.Netlink.{State, Event, set_socket, answer_round, finish_message, nl_data_ready}
use yu.Netlink.Lifetime.{Message, loaded, unloaded, is_long}
use yu.Netlink.Tests.{stale, roomy, roomy-HasRoom, session}
use yu.Netlink.Receive.{sendnlmsg-Sends}
use yu.Netlink.Overlap.{
  Handler, idle, answering, ended, World, world, opening, create, assign, enter, answer, leave,
  Reach, here, ◌then◌, start,
}
use yu.Netlink.Overlap.Seen.{◌⊑◌, seen}
use yu.Netlink.Overlap.Serial.{handlers_serial}
use yu.Netlink.Overlap.Drain.{finished}
use yu.Netlink.Overlap.Ends.{handlers_end}
use yu.Netlink
use yu.Netlink.Client
use yu.Netlink.Client.{main}
use yu.Netlink.Client.Exit.{received}
use yu.Netlink.Session.{skb_of, queued, receive}
use yu.Netlink.Overlap.Greetings.{sent_by, overlap_greetings}

abbrev client_message : Message
client_message = record { skb = skb_of Client.greeting; replies = λ i. roomy }

abbrev opened_socket : State
opened_socket = record { nl_sk = 9; flag = 0 }

abbrev flagged : State
flagged = record { nl_sk = 9; flag = 1 }

-- What a handler has made, with one more round.
abbrev more : State → ℕ → ℕ → (ℕ → List Event) → ℕ → List Event
more m p i es = set es p (es p ++ (answer_round m (client_message.replies i) 100).calls)

answered : (m : State) (i : ℕ) → (answer_round m (client_message.replies i) 100).outcome ≡ done tt
unfolding answer_round
answered m i = rw (sendnlmsg-Sends m (client_message.replies i) 100 roomy-HasRoom).ended refl

-- The first handler has its first round before the assignment, and the second is called behind it.
abbrev handlers : ℕ → Handler
handlers =
    set
      (set
        (set
          (set
            (set (set (λ p. idle) 0 (answering client_message 0 2)) 0
              (answering client_message 0 1))
            1 (answering client_message 9 2))
          1 (answering client_message 9 1))
        0 (answering client_message 0 0))
      0 (ended client_message 0)

abbrev made : ℕ → List Event
made =
    let es = more opened_socket 0 0 (
      more opened_socket 1 1 (
        set (more start.memory 0 1 (set (λ p. []) 0 (opening client_message))) 1
          (opening client_message))) in
    set es 0 (es 0 ++ (finish_message opened_socket).calls)

abbrev overlapped : World
overlapped = world flagged (loaded 9 (pos 0)) handlers made

overlapped-Reach : Reach start overlapped
unfolding set_socket finish_message
overlapped-Reach =
    here
    then create 9
    then enter 0 client_message (omega arith) (λ i. roomy-HasRoom) refl
    then answer 0 client_message 0 1 refl (answered start.memory 1)
    then assign refl
    then enter 1 client_message (omega arith) (λ i. roomy-HasRoom) refl
    then answer 1 client_message 9 1 refl (answered opened_socket 1)
    then answer 0 client_message 0 0 refl (answered opened_socket 0)
    then leave 0 client_message 0 refl refl

handlers_serial_example :
    (first : ℕ) × (second : ℕ) × (0 ⊑ first)
    × (first ⊑ second)
    × (second ⊑ 9)
    × (made 0 ≡ seen first second client_message)
    × ((◌≡◌ {A = ℕ} 0 0)
        ⊎ (made 0 ≡ (nl_data_ready flagged client_message.replies client_message.skb).calls))
    × ((is_long client_message ≡ false) ⊎ (◌≡◌ {A = ℕ} 1 1))
handlers_serial_example = handlers_serial overlapped 0 client_message 0 overlapped-Reach refl

handlers_end_example :
    (v : World) × (sock : ℕ) × Reach overlapped v
    × (v.phase ≡ unloaded sock)
    × ((q : ℕ) → v.handlers q ≡ finished (handlers q))
handlers_end_example = handlers_end overlapped overlapped-Reach

abbrev left_behind : List ℕ
left_behind = Netlink.greeting ++ stale

overlap_greetings_example :
    let r = main 3 (record session { recvmsg = receive (queued 9 Client.source_port (made 0)) }) in
    (first : ℕ) × (second : ℕ) × (0 ⊑ first)
    × (first ⊑ second)
    × (second ⊑ 9)
    × (r.outcome ≡ done (some (pos 1)))
    × (received r.calls
        ≡ map c_string (sent_by first left_behind 0 ++ sent_by second left_behind 0))
    × (◌≡◌ {A = ℕ} 1 1)
overlap_greetings_example =
    overlap_greetings overlapped 0 client_message 0 left_behind left_behind 0 0 3 session
      overlapped-Reach refl refl (refl, refl, omega arith, refl) (refl, refl, omega arith, refl)
      refl refl refl (omega arith)
