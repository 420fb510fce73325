-- ===== src/Netlink/Overlap/Serial.antt =====
-- Handlers of nl.c that overlap do what one handler at a time does, but for the socket that they find.
use mathlib.Core.Path.{subst}
use yu.Prelude.{ℕ, ◌≡◌, ◌⊎◌, inl, inr, refl, false, if◌then◌else◌, arith}
use yu.Prelude.Int.{ℤ}
use yu.Prelude.Trace.{done}
use yu.Netlink.{State, set_socket, nl_data_ready}
use yu.Netlink.Lifetime.{Message, Phase, loading, creating, loaded, unloaded, is_long, socket}
use yu.Netlink.Overlap.{
  ended, World, Step, create, assign, enter, answer, leave, unload, Reach, here, ◌then◌, start,
}
use yu.Netlink.Overlap.Seen.{◌⊑◌, ⊑-trans, seen}
use yu.Netlink.Overlap.Kept.{
  found_same, Roomy, At, At-set, At-next, opened-At, answered-At, left-At, finish_message_memory,
}

-- What is in `nl_sk`, by where the module stands.
abbrev Placed : Phase → ℕ → Type 0
Placed loading sk = sk ≡ 0
Placed (creating sock) sk = sk ≡ 0
Placed (loaded sock r) sk = sk ≡ sock
Placed (unloaded sock) sk = sk ≡ sock

record IsSound (w : World) : Type 0 where
  at : (p : ℕ) → At w.memory (w.handlers p) (w.made p)
  placed : Placed w.phase w.memory.nl_sk

set_socket_memory :
    (m m' : State) (sock : ℕ) (r : ℤ)
    → (set_socket m sock).outcome ≡ done (m', r)
    → (m'.nl_sk ≡ sock) × (m'.flag ≡ m.flag)
unfolding set_socket
set_socket_memory m m' sock r e = ground arith

Step-IsSound : {w v : World} → Step w v → IsSound w → IsSound v
Step-IsSound (create sock) h = record { at = h.at; placed = h.placed }
Step-IsSound (assign {m} {m'} {hs} {es} {sock} {r} e) h =
    let (sk, flag) = set_socket_memory m m' sock r e in
    record { at = λ p. At-next m m' (hs p) (es p) (inl h.placed) (inl flag) (h.at p); placed = sk }
Step-IsSound (enter {m} {ph} {hs} {es} p x open_ room free) h = record {
  at = At-set m hs es p _ _ h.at (opened-At m x room);
  placed = h.placed;
}
Step-IsSound (answer {m} {ph} {hs} {es} p x b i was e) h = record {
  at =
      At-set m hs es p _ _ h.at
        (answered-At m x b i (es p) (subst (λ v. At m v (es p)) was (h.at p)));
  placed = h.placed;
}
Step-IsSound (leave {m} {m'} {ph} {hs} {es} p x b was e) h =
    let (sk, flag) = finish_message_memory m m' e in
    record {
      at =
          At-set m' hs es p _ _ (λ q. At-next m m' (hs q) (es q) (inr sk) (inr flag) (h.at q))
            (left-At m m' x b (es p) e (subst (λ v. At m v (es p)) was (h.at p)));
      placed = subst (Placed ph) sk h.placed;
    }
Step-IsSound (unload quiet e) h = record { at = h.at; placed = h.placed }

Reach-IsSound : {w v : World} → Reach w v → IsSound w → IsSound v
Reach-IsSound here h = h
Reach-IsSound (r then st) h = Step-IsSound st (Reach-IsSound r h)

start-IsSound : IsSound start
start-IsSound = record { at = λ q. record { does = refl; roomy = tt; flagged = tt }; placed = refl }

pub Reach-rooms : {w : World} → Reach start w → (p : ℕ) → Roomy (w.handlers p)
Reach-rooms r p = ((Reach-IsSound r start-IsSound).at p).roomy

Placed-socket : (ph : Phase) (sk : ℕ) → Placed ph sk → sk ⊑ socket ph
Placed-socket loading sk h = inl h
Placed-socket (creating sock) sk h = inl h
Placed-socket (loaded sock r) sk h = inr h
Placed-socket (unloaded sock) sk h = inr h

-- nl.c is loaded with both variables 0, and handlers of its messages run, any number at a time, from
-- the creation of the socket on, each with room for the greeting in the headers that it is given.
-- Then a handler that has ended has made the calls of the code for two values of `nl_sk`, of which
-- each is 0 or the socket that was created, and the second is the first if that is not 0. A handler
-- that was called when the socket was already assigned has made just the calls that
-- `nl_data_ready` makes alone. And once a handler of a message that is long enough for a header has
-- ended, `flag` is 1.
pub handlers_serial :
    (w : World) (p : ℕ) (x : Message) (began : ℕ)
    → Reach start w
    → w.handlers p ≡ ended x began
    → (first : ℕ) × (second : ℕ) × (began ⊑ first)
      × (first ⊑ second)
      × (second ⊑ socket w.phase)
      × (w.made p ≡ seen first second x)
      × ((began ≡ 0) ⊎ (w.made p ≡ (nl_data_ready w.memory x.replies x.skb).calls))
      × ((is_long x ≡ false) ⊎ (w.memory.flag ≡ 1))
handlers_serial w p x began r was =
    let sound = Reach-IsSound r start-IsSound in
    let at = subst (λ v. At w.memory v (w.made p)) was (sound.at p) in
    let (first, second, before, between, after, made) = at.does in
    (
      first,
      second,
      before,
      between,
      ⊑-trans after (Placed-socket w.phase w.memory.nl_sk sound.placed),
      made,
      found_same w.memory x began first second before between after at.roomy made,
      at.flagged,
    )
