-- ===== src/Netlink/Lifetime.antt =====
-- The life of nl.c: its loading, the messages that reach it, and its unloading.
pub mod Invariant
use yu.Prelude.{
  ℕ, ◌+◌, ◌≡◌, ◌≢◌, Bool, true, false, not, List, [], ◌∷◌, ◌++◌, ◌==◌, leb, if◌then◌else◌,
}
use yu.Prelude.Int.{ℤ, pos}
use yu.Prelude.Calls.{count}
use yu.Prelude.Trace.{Run, done}
use yu.Netlink.{
  State, Reply, Skb, Event, netlink_kernel_create, set_socket, nl_data_ready, netlink_exit,
}
use yu.Netlink.Receive.{HasRoom, answers}

-- A message, with what the kernel answers in the two rounds of its handler.
pub record Message : Type 0 where
  pub skb : Skb
  pub replies : ℕ → Reply

-- Where the module stands: `creating sock` is between the creation of the socket and the assignment
-- to `nl_sk`, when messages are already delivered; `loaded sock r` is after the return of `r`.
pub data Phase : Type 0 where
  loading : Phase
  creating : ℕ → Phase
  loaded : ℕ → ℤ → Phase
  unloaded : ℕ → Phase

-- The variables, the calls so far, and the messages that came before and after the assignment.
pub record World : Type 0 where
  pub memory : State
  pub phase : Phase
  pub calls : List Event
  pub early : List Message
  pub late : List Message

abbrev pub world : State → Phase → List Event → List Message → List Message → World
world m p es early late = record { memory = m; phase = p; calls = es; early = early; late = late }

abbrev pub handle : State → Message → Run Event State
handle m x = nl_data_ready m x.replies x.skb

-- A module whose `init` returns a positive number is loaded nevertheless. No message is delivered
-- without a socket, and the module is not unloaded while a handler runs.
pub data Step : World → World → Type 0 where
  create :
      {m : State} {es : List Event} {early late : List Message} (sock : ℕ)
      → Step
          (world m loading es early late)
          (world m (creating sock) (es ++ (netlink_kernel_create 25 ∷ [])) early late)
  receive_early :
      {m m' : State} {es : List Event} {early late : List Message} {sock : ℕ} (x : Message)
      → sock ≢ 0
      → ((i : ℕ) → HasRoom (x.replies i))
      → (handle m x).outcome ≡ done m'
      → Step
          (world m (creating sock) es early late)
          (world m' (creating sock) (es ++ (handle m x).calls) (x ∷ early) late)
  assign :
      {m m' : State} {es : List Event} {early late : List Message} {sock : ℕ} {r : ℤ}
      → (set_socket m sock).outcome ≡ done (m', r)
      → Step
          (world m (creating sock) es early late)
          (world m' (loaded sock r) (es ++ (set_socket m sock).calls) early late)
  receive :
      {m m' : State} {es : List Event} {early late : List Message} {sock : ℕ} {r : ℤ} (x : Message)
      → sock ≢ 0
      → ((i : ℕ) → HasRoom (x.replies i))
      → (handle m x).outcome ≡ done m'
      → Step
          (world m (loaded sock r) es early late)
          (world m' (loaded sock r) (es ++ (handle m x).calls) early (x ∷ late))
  unload :
      {m : State} {es : List Event} {early late : List Message} {sock : ℕ} {r : ℤ}
      → (netlink_exit m).outcome ≡ done tt
      → Step
          (world m (loaded sock r) es early late)
          (world m (unloaded sock) (es ++ (netlink_exit m).calls) early late)

infixl 5 ◌then◌
pub data Reach (w : World) : World → Type 0 where
  here : Reach w w
  ◌then◌ : {v u : World} → Reach w v → Step v u → Reach w u

-- The module before its loading: both variables are 0.
abbrev pub start : World
start = world (record { nl_sk = 0; flag = 0 }) loading [] [] []

-- What is expected of a history.
abbrev pub is_long : Message → Bool
is_long x = leb 16 x.skb.len

abbrev pub is_short : Message → Bool
is_short x = not (is_long x)

abbrev pub socket : Phase → ℕ
socket loading = 0
socket (creating sock) = sock
socket (loaded sock r) = sock
socket (unloaded sock) = sock

-- The messages that a module with the socket sends in answer to one.
abbrev pub answers_to : ℕ → Message → ℕ
answers_to sock x =
    let s : State = record { nl_sk = sock; flag = 0 } in
    if is_long x then answers s (x.replies 1) + answers s (x.replies 0) else 0

abbrev pub total : ℕ → List Message → ℕ
total sock [] = 0
total sock (x ∷ xs) = answers_to sock x + total sock xs

abbrev pub flag_after : ℕ → ℕ
flag_after longs = if longs == 0 then 0 else 1

abbrev pub released : Phase → List ℕ
released (unloaded sock) = if sock == 0 then [] else sock ∷ []
released _ = []

-- What `init` returns, if it has: a number that refuses no module, with or without a socket.
abbrev pub Returns : Phase → Type 0
Returns (loaded sock r) = r ≡ (if sock == 0 then pos 1 else pos 0)
Returns _ = Unit {0}
