-- ===== src/Netlink/Tests.antt =====
-- Runs of nl.c and unl.c.
use yu.Prelude.{
  ℕ, zero, suc, ◌+◌, ◌≡◌, ◌↔◌, refl, true, none, some, List, [], ◌∷◌, ◌++◌, get_elem?, length,
  arith,
}
use yu.Prelude.Int.{pos, negsuc}
use yu.Prelude.CString.{c_string, codes, NoNull}
use yu.Prelude.Trace.{run, done, fault}
use yu.Netlink.{
  State, Reply, Skb, say_portid, alloc_skb, nlmsg_put, set_cb, say_send, netlink_unicast, greeting,
  sendnlmsg, set_socket, netlink_exit, Event, netlink_kernel_create,
}
use yu.Netlink.Lifetime.{
  Message, World, world, unloaded, handle, create, receive_early, assign, receive, unload, Reach,
  here, ◌then◌, start,
}
use yu.Netlink.Lifetime.Invariant.{netlink_lifetime}
use yu.Netlink.Send.{sent, sendnlmsg-sent, sendnlmsg-string, sendnlmsg-overflow}
use yu.Netlink.Session.{heard, text, module_run, client_run, client_run-greetings}
use yu.Netlink.Client.{Received, Answers, main}
use yu.Netlink.Client.Exit.{closes, received, main-received}
use yu.Netlink.Receive.{HasRoom, gets, frees, unicasts, releases, nl_data_ready_balance}

abbrev module_state : State
module_state = record { nl_sk = 7; flag = 0 }

-- A payload of eight bytes that was in use before.
abbrev pub stale : List ℕ
stale = 1 ∷ 2 ∷ 3 ∷ 4 ∷ 5 ∷ 6 ∷ 7 ∷ 8 ∷ []

abbrev granted : Reply
granted = record { alloc_skb = true; nlmsg_put = some stale }

abbrev no_header : Reply
no_header = record { alloc_skb = true; nlmsg_put = none }

abbrev hi : List ℕ
hi = b'h' ∷ b'i' ∷ []

hi-NoNull : NoNull hi
hi-NoNull = ground arith

sendnlmsg-sent_example :
    (x : ℕ) × (get_elem? stale 2 ≡ some x)
    × (sendnlmsg module_state granted (some (hi ++ (0 ∷ []))) 100
        ≡ run
            (let p = hi ++ (x ∷ 0 ∷ 5 ∷ 6 ∷ 7 ∷ 8 ∷ []) in
              say_portid 100
              ∷ alloc_skb 1040
              ∷ nlmsg_put 1024
              ∷ set_cb 0 0
              ∷ say_send (c_string p)
              ∷ netlink_unicast 7 100 p
              ∷ [])
            (done tt))
sendnlmsg-sent_example =
    sendnlmsg-sent module_state granted hi [] stale 100 (omega arith) refl refl hi-NoNull
      (omega arith)

sendnlmsg-string_example :
    (p : List ℕ) × (sent (sendnlmsg module_state granted (some (hi ++ (0 ∷ []))) 100).calls
      ≡ some p)
    × ((c_string p ≡ hi) ↔ (get_elem? stale 2 ≡ some 0))
sendnlmsg-string_example =
    sendnlmsg-string module_state granted hi [] stale 100 (omega arith) refl refl hi-NoNull
      (omega arith)

string_too_long :
    (sendnlmsg module_state granted (some ((stale ++ hi) ++ (0 ∷ []))) 100).outcome ≡ fault
string_too_long =
    sendnlmsg-overflow module_state granted (stale ++ hi) [] stale 100 (omega arith) refl refl
      (ground arith) (omega arith)

abbrev message : Skb
message = record { len = 1040; nlmsg_pid = 100; payload = hi ++ (0 ∷ []) }

abbrev pub roomy : Reply
roomy = record { alloc_skb = true; nlmsg_put = some (greeting ++ stale) }

pub roomy-HasRoom : HasRoom roomy
roomy-HasRoom = omega arith

-- A short message comes before the socket is assigned, and a long one behind it.
abbrev short_message : Message
short_message = record {
  skb = record { len = 8; nlmsg_pid = 100; payload = [] };
  replies = λ i. roomy;
}

abbrev long_message : Message
long_message = record { skb = message; replies = λ i. roomy }

abbrev after_long : State
after_long = record { nl_sk = 9; flag = 1 }

abbrev life_calls : List Event
life_calls =
    ((((netlink_kernel_create 25 ∷ []) ++ (handle start.memory short_message).calls)
        ++ (set_socket start.memory 9).calls)
      ++ (handle (record { nl_sk = 9; flag = 0 }) long_message).calls)
    ++ (netlink_exit after_long).calls

abbrev life_end : World
life_end = world after_long (unloaded 9) life_calls (short_message ∷ []) (long_message ∷ [])

life_Reach : Reach start life_end
unfolding set_socket netlink_exit
life_Reach =
    here
    then create 9
    then receive_early short_message (omega arith) (λ i. roomy-HasRoom)
        (nl_data_ready_balance start.memory (λ i. roomy) short_message.skb (λ i. roomy-HasRoom)).0
    then assign refl
    then receive long_message (omega arith) (λ i. roomy-HasRoom)
        (nl_data_ready_balance (record { nl_sk = 9; flag = 0 }) (λ i. roomy) message
          (λ i. roomy-HasRoom)).0
    then unload refl

netlink_lifetime_example :
    (life_end.memory.flag ≡ 1)
    × (gets life_calls ≡ frees life_calls + 1)
    × (unicasts life_calls ≡ 2)
    × (releases life_calls ≡ 9 ∷ [])
    × Unit {0}
netlink_lifetime_example = netlink_lifetime life_end life_Reach

-- The first receive finds a message, and the second nothing.
abbrev pub received_by : ℕ → Received
received_by zero = record { state = pos 1040; payload = hi ++ (0 ∷ []) }
received_by (suc i) = record { state = negsuc 0; payload = [] }

abbrev pub session : Answers
session = record {
  socket = pos 3;
  bind = pos 0;
  malloc = true;
  sendmsg = pos 1040;
  recvmsg = received_by;
}

session-received :
    ((main 2 session).outcome ≡ done (some (pos 1)))
    × (received (main 2 session).calls ≡ c_string (hi ++ (0 ∷ [])) ∷ [])
    × (closes (main 2 session).calls ≡ [])
session-received = main-received 1 2 session refl refl refl (refl, refl) (omega arith)

-- Two buffers that were in use before: in the second to be used the byte behind the greeting is null.
abbrev zeroed : List ℕ
zeroed = greeting ++ stale

abbrev used : List ℕ
used = codes "These eighteen are" ++ stale

abbrev rounds : ℕ → Reply
rounds zero = record { alloc_skb = true; nlmsg_put = some zeroed }
rounds (suc i) = record { alloc_skb = true; nlmsg_put = some used }

client_run-greetings_example :
    ((module_run module_state rounds).outcome ≡ done (record { nl_sk = 7; flag = 1 }))
    × (heard (module_run module_state rounds).calls ≡ (codes "Hello you!", 100) ∷ [])
    × ((client_run 3 module_state rounds session).outcome ≡ done (some (pos 1)))
    × (length (received (client_run 3 module_state rounds session).calls) ≡ 2)
    × ((received (client_run 3 module_state rounds session).calls ≡ text ∷ text ∷ [])
        ↔ ((◌≡◌ {A = ℕ} 101 0) × (◌≡◌ {A = ℕ} 0 0)))
client_run-greetings_example =
    client_run-greetings module_state rounds (omega arith) used zeroed 101 0
      (refl, refl, omega arith, refl) (refl, refl, omega arith, refl) 3 session refl refl refl
      (omega arith)
