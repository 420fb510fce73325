-- ===== src/Netlink.antt =====
-- kmods/netlink/nl.c: a kernel module that answers each netlink message with two messages of its
-- own. The client in user space, unl.c, is in `Netlink.Client`.
pub mod Memory
pub mod Send
pub mod Receive
pub mod Client
pub mod Session
pub mod Lifetime
pub mod Overlap
mod Tests
use yu.Prelude.{
  ℕ, zero, suc, ◌+◌, ◌*◌, ◌/◌, ◌++◌, Bool, true, false, Option, none, some, List, [], ◌∷◌, ◌==◌,
  leb, if◌then◌else◌, take,
}
use yu.Prelude.Int.{ℤ, pos}
use yu.Prelude.CString.{codes, c_string}
use yu.Prelude.Trace.{Run, ◌>>=◌, ◌>>◌, pure, call, oops, run, after, and_then, done, fault}

abbrev pub max_msgsize : ℕ
max_msgsize = 1024

-- `NLMSG_SPACE (n)`: a header of 16 bytes and the payload, rounded up to a multiple of 4.
abbrev pub nlmsg_space : ℕ → ℕ
nlmsg_space n = (16 + n + 3) / 4 * 4

-- The variables of the module: the socket (0 is a null pointer), and `flag`.
pub record State : Type 0 where
  pub nl_sk : ℕ
  pub flag : ℕ

-- What the kernel answers to one message that is sent: whether `alloc_skb` gives a buffer, and
-- what `nlmsg_put` leaves in the payload of the new header, if it gives one.
pub record Reply : Type 0 where
  pub alloc_skb : Bool
  pub nlmsg_put : Option (List ℕ)

-- A message that is received: the length of its buffer, and the sender and the payload of its header.
pub record Skb : Type 0 where
  pub len : ℕ
  pub nlmsg_pid : ℕ
  pub payload : List ℕ

pub data Event : Type 0 where
  say_portid : ℕ → Event
  alloc_skb : ℕ → Event
  say_alloc_error : Event
  nlmsg_put : ℕ → Event
  warn_put : Event
  set_cb : ℕ → ℕ → Event
  say_send : List ℕ → Event
  netlink_unicast : ℕ → ℕ → List ℕ → Event
  say_begin say_data : Event
  skb_get kfree_skb : Event
  say_received : List ℕ → ℕ → Event
  init_completion : Event
  msleep : ℕ → Event
  netlink_kernel_create : ℕ → Event
  say_create_error say_create_ok : Event
  sock_release : ℕ → Event
  say_exited : Event

-- The loop of `stringlength`. To read past the memory that is given is a fault.
pub string_loop : ℕ → List ℕ → Run Event ℕ
string_loop slen [] = oops
string_loop slen (c ∷ s) = let rest = string_loop (slen + 1) s in if c == 0 then pure slen else rest

pub stringlength : List ℕ → Run Event ℕ
unfolding string_loop
stringlength s = string_loop 0 s

-- `memcpy (payload, bytes, n)` of the `n` bytes given; to write past the payload is a fault.
pub memcpy : List ℕ → List ℕ → Run Event (List ℕ)
memcpy payload [] = pure payload
memcpy [] (b ∷ bytes) = oops
memcpy (x ∷ payload) (b ∷ bytes) = do rest ← memcpy payload bytes; pure (b ∷ rest)

-- `payload[i] = v`.
pub store : List ℕ → ℕ → ℕ → Run Event (List ℕ)
store [] i v = oops
store (x ∷ payload) zero v = pure (v ∷ payload)
store (x ∷ payload) (suc i) v = do rest ← store payload i v; pure (x ∷ rest)

-- From `nlmsg_put` on, with the string and its length.
fill_and_send : State → List ℕ → ℕ → ℕ → List ℕ → Run Event (Unit {0})
unfolding memcpy store
fill_and_send s message slen portid stale = do
  call (set_cb 0 0)
  copied ← memcpy stale (take slen message)
  payload ← store copied (1 + slen) 0
  call (say_send (c_string payload))
  call (netlink_unicast s.nl_sk portid payload)

-- `sendnlmsg`; the message is the memory from its pointer on, `none` for a null pointer.
pub sendnlmsg : State → Reply → Option (List ℕ) → ℕ → Run Event (Unit {0})
sendnlmsg s reply none portid = pure tt
sendnlmsg s reply (some message) portid = if s.nl_sk == 0 then pure tt else do
  call (say_portid portid)
  call (alloc_skb (nlmsg_space max_msgsize))
  if reply.alloc_skb
      then (do
        slen ← stringlength message
        call (nlmsg_put max_msgsize)
        elim reply.nlmsg_put [
          | none ↦ call warn_put
          | some stale ↦ fill_and_send s message slen portid stale
        ])
      else call say_alloc_error

-- The literal in `nl_data_ready`, with its null byte.
abbrev pub greeting : List ℕ
greeting = codes "I am from kernel!" ++ (0 ∷ [])

-- One round of the loop of `nl_data_ready`.
pub answer_round : State → Reply → ℕ → Run Event (Unit {0})
answer_round s reply portid = do
  call init_completion
  call (msleep 20)
  sendnlmsg s reply (some greeting) portid

-- `while(i--)`; each round has its own answers.
answer_loop : ℕ → State → (ℕ → Reply) → ℕ → Run Event (Unit {0})
unfolding answer_round
answer_loop zero s replies portid = pure tt
answer_loop (suc i) s replies portid =
    answer_round s (replies i) portid >> answer_loop i s replies portid

-- What `nl_data_ready` does in front of its loop, and behind it.
pub show_message : Skb → Run Event (Unit {0})
show_message skb = do call say_data; call (say_received (c_string skb.payload) skb.nlmsg_pid)

pub finish_message : State → Run Event State
finish_message s = do call kfree_skb; pure (record s { flag = 1 })

pub nl_data_ready : State → (ℕ → Reply) → Skb → Run Event State
unfolding show_message finish_message
nl_data_ready s replies skb = do
  call say_begin
  call skb_get
  if leb (nlmsg_space 0) skb.len
      then (do show_message skb; answer_loop 2 s replies skb.nlmsg_pid; finish_message s)
      else pure s

-- `netlink_init` behind the call, with the socket that `netlink_kernel_create` has returned.
pub set_socket : State → ℕ → Run Event (State × ℤ)
set_socket s sock =
    if sock == 0
    then (do call say_create_error; pure (record s { nl_sk = sock }, pos 1))
    else (do call say_create_ok; pure (record s { nl_sk = sock }, pos 0))

-- Protocol 25.
pub netlink_init : State → ℕ → Run Event (State × ℤ)
unfolding set_socket
netlink_init s sock = do call (netlink_kernel_create 25); set_socket s sock

pub netlink_exit : State → Run Event (Unit {0})
netlink_exit s =
    if s.nl_sk == 0 then call say_exited else (do call (sock_release s.nl_sk); call say_exited)
