-- ===== src/Netlink/Client.antt =====
-- kmods/netlink/unl.c: the client of nl.c. It sends one message, and prints what it receives until
-- a receive fails.
pub mod Exit
use yu.Prelude.{
  ℕ, zero, suc, ◌+◌, Bool, true, false, Option, none, some, List, [], ◌∷◌, ◌++◌, ◌==◌,
  if◌then◌else◌,
}
use yu.Prelude.Int.{ℤ, pos, negsuc, is_negative}
use yu.Prelude.CString.{codes, c_string}
use yu.Prelude.Trace.{Run, ◌>>=◌, ◌>>◌, pure, call, run, after, and_then, done, fault}
use yu.Netlink.{nlmsg_space}

abbrev pub max_payload : ℕ
max_payload = 1024

-- `src_addr.nl_pid`, the port that the socket is bound to.
abbrev pub source_port : ℕ
source_port = 100

-- What one `recvmsg` returns, and the payload of `nlh` after it.
pub record Received : Type 0 where
  pub state : ℤ
  pub payload : List ℕ

-- What the system calls return, in the order of the program.
pub record Answers : Type 0 where
  pub socket : ℤ
  pub bind : ℤ
  pub malloc : Bool
  pub sendmsg : ℤ
  pub recvmsg : ℕ → Received

-- A message: the length and the sender in its header, and its text.
pub record Message : Type 0 where
  pub nlmsg_len : ℕ
  pub nlmsg_pid : ℕ
  pub body : List ℕ

pub data Event : Type 0 where
  socket : ℕ → Event
  say_socket_error : Event
  bind : ℤ → ℕ → Event
  say_bind_error : Event
  malloc : ℕ → Event
  say_malloc_error : Event
  say_state_smg : Event
  sendmsg : ℤ → ℕ → Message → Event
  say_sendmsg_error : Event
  clear_nlh : ℕ → Event
  say_waiting say_in_while : Event
  recvmsg : ℤ → Event
  say_state : Event
  say_received : List ℕ → Event
  close : ℤ → Event

abbrev pub is_minus_one : ℤ → Bool
is_minus_one (pos n) = false
is_minus_one (negsuc n) = n == 0

abbrev pub greeting : Message
greeting = record {
  nlmsg_len = nlmsg_space max_payload;
  nlmsg_pid = 100;
  body = codes "Hello you!" ++ (0 ∷ []);
}

-- `while(1)`, from receive number `i` on; `none` after `fuel` rounds that did not end it.
recv_loop : ℕ → ℤ → (ℕ → Received) → ℕ → Run Event (Option ℤ)
recv_loop zero fd recv i = pure none
recv_loop (suc fuel) fd recv i =
    let rest = recv_loop fuel fd recv (i + 1) in
    let r = recv i in
    do
      call say_in_while
      call (recvmsg fd)
      if is_negative r.state
          then (do call say_state; pure (some (pos 1)))
          else (do call (say_received (c_string r.payload)); rest)

-- From the message on: a failure to send is only reported.
exchange : ℕ → Answers → Run Event (Option ℤ)
unfolding recv_loop
exchange fuel a = do
  call say_state_smg
  call (sendmsg a.socket 0 greeting)
  (if is_minus_one a.sendmsg then call say_sendmsg_error else pure tt)
  call (clear_nlh (nlmsg_space max_payload))
  call say_waiting
  recv_loop fuel a.socket a.recvmsg 0

-- `main`, with at most `fuel` receives.
pub main : ℕ → Answers → Run Event (Option ℤ)
main fuel a = do
  call (socket 25)
  if is_minus_one a.socket then (do call say_socket_error; pure (some (negsuc 0))) else (do
    call (bind a.socket source_port)
    if is_negative a.bind
        then (do call say_bind_error; call (close a.socket); pure (some (negsuc 0)))
        else (do
          call (malloc (nlmsg_space max_payload))
          if a.malloc
              then exchange fuel a
              else (do call say_malloc_error; call (close a.socket); pure (some (negsuc 0)))))
