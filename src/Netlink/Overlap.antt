-- ===== src/Netlink/Overlap.antt =====
-- The handlers of nl.c, any number at a time: each takes its rounds when it has slept, while others run
-- and while the module is still being loaded.
pub mod Seen
pub mod Kept
pub mod Serial
pub mod Drain
pub mod Ends
pub mod Greetings
mod Tests
use yu.Prelude.Update.{set}
use yu.Prelude.{
  ℕ, zero, suc, ◌≡◌, ◌≢◌, ◌⊎◌, Bool, true, false, List, [], ◌∷◌, ◌++◌, ◌==◌, leb, if◌then◌else◌,
}
use yu.Prelude.Int.{ℤ, pos}
use yu.Prelude.Trace.{Run, done}
use yu.Netlink.{
  State, Reply, Skb, Event, say_begin, skb_get, netlink_kernel_create, answer_round, show_message,
  finish_message, set_socket, netlink_exit,
}
use yu.Netlink.Receive.{HasRoom}
use yu.Netlink.Lifetime.{Message, Phase, loading, creating, loaded, unloaded, is_long}

-- Where one handler stands: `answering` has rounds left. Both keep what `nl_sk` was when the handler
-- was called.
pub data Handler : Type 0 where
  idle : Handler
  answering : Message → ℕ → ℕ → Handler
  ended : Message → ℕ → Handler

abbrev pub IsQuiet : Handler → Type 0
IsQuiet (answering x began left) = ⊥
IsQuiet _ = Unit {0}

-- The variables, where the module and each handler stands, and the calls of each handler.
pub record World : Type 0 where
  pub memory : State
  pub phase : Phase
  pub handlers : ℕ → Handler
  pub made : ℕ → List Event

abbrev pub world : State → Phase → (ℕ → Handler) → (ℕ → List Event) → World
world m p hs es = record { memory = m; phase = p; handlers = hs; made = es }

-- The calls up to the first round, or all of a handler whose message is too short.
abbrev pub opening : Message → List Event
opening x = say_begin ∷ skb_get ∷ (if is_long x then (show_message x.skb).calls else [])

abbrev pub opened : Message → ℕ → Handler
opened x sk = if is_long x then answering x sk 2 else ended x sk

-- The socket to which messages can come.
abbrev pub Listens : Phase → Type 0
Listens (creating sock) = sock ≢ 0
Listens (loaded sock r) = sock ≢ 0
Listens _ = ⊥

-- A round reads `nl_sk` after its sleep, and what comes before touches nothing that is shared. The
-- module is not unloaded while a handler runs.
pub data Step : World → World → Type 0 where
  create :
      {m : State} {hs : ℕ → Handler} {es : ℕ → List Event} (sock : ℕ)
      → Step (world m loading hs es) (world m (creating sock) hs es)
  assign :
      {m m' : State} {hs : ℕ → Handler} {es : ℕ → List Event} {sock : ℕ} {r : ℤ}
      → (set_socket m sock).outcome ≡ done (m', r)
      → Step (world m (creating sock) hs es) (world m' (loaded sock r) hs es)
  enter :
      {m : State} {ph : Phase} {hs : ℕ → Handler} {es : ℕ → List Event} (p : ℕ) (x : Message)
      → Listens ph
      → ((i : ℕ) → HasRoom (x.replies i))
      → hs p ≡ idle
      → Step (world m ph hs es) (world m ph (set hs p (opened x m.nl_sk)) (set es p (opening x)))
  answer :
      {m : State} {ph : Phase} {hs : ℕ → Handler} {es : ℕ → List Event} (p : ℕ) (x : Message)
      (b i : ℕ)
      → hs p ≡ answering x b (suc i)
      → (answer_round m (x.replies i) x.skb.nlmsg_pid).outcome ≡ done tt
      → Step (world m ph hs es) (
          world m ph
            (set hs p (answering x b i))
            (set es p (es p ++ (answer_round m (x.replies i) x.skb.nlmsg_pid).calls)))
  leave :
      {m m' : State} {ph : Phase} {hs : ℕ → Handler} {es : ℕ → List Event} (p : ℕ) (x : Message)
      (b : ℕ)
      → hs p ≡ answering x b 0
      → (finish_message m).outcome ≡ done m'
      → Step
          (world m ph hs es)
          (world m' ph (set hs p (ended x b)) (set es p (es p ++ (finish_message m).calls)))
  unload :
      {m : State} {hs : ℕ → Handler} {es : ℕ → List Event} {sock : ℕ} {r : ℤ}
      → ((p : ℕ) → IsQuiet (hs p))
      → (netlink_exit m).outcome ≡ done tt
      → Step (world m (loaded sock r) hs es) (world m (unloaded sock) hs es)

infixl 5 ◌then◌
pub data Reach (w : World) : World → Type 0 where
  here : Reach w w
  ◌then◌ : {v u : World} → Reach w v → Step v u → Reach w u

abbrev pub start : World
start = world (record { nl_sk = 0; flag = 0 }) loading (λ p. idle) (λ p. [])
