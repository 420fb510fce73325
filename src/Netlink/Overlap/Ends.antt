-- ===== src/Netlink/Overlap/Ends.antt =====
-- When the handlers of nl.c have come to their end, the module can be unloaded.
use mathlib.Core.Path.{subst}
use yu.Prelude.Update.{set}
use yu.Prelude.{
  ℕ, suc, ◌+◌, ◌≤◌, ◌≡◌, inl, inr, refl, sym, ◌∙◌, List, ◌==◌, ltb, if◌then◌else◌, Bool-cases,
  arith,
}
use yu.Prelude.Int.{ℤ, pos}
use yu.Prelude.Trace.{done}
use yu.Netlink.{State, Event, set_socket, netlink_exit}
use yu.Netlink.Lifetime.{Phase, loading, creating, loaded, unloaded}
use yu.Netlink.Overlap.{
  Handler, idle, IsQuiet, World, world, Step, create, assign, enter, answer, leave, unload, Reach,
  here, ◌then◌, start,
}
use yu.Netlink.Overlap.Serial.{Reach-rooms}
use yu.Netlink.Overlap.Drain.{Reach-trans, finished, finished-IsQuiet, finished_below, drain}

-- Only so many handlers were ever called.
Below : ℕ → World → Type 0
Below n w = (q : ℕ) → n ≤ q → w.handlers q ≡ idle

set_below :
    (n p : ℕ) (hs : ℕ → Handler) (v : Handler)
    → ((q : ℕ) → n ≤ q → hs q ≡ idle)
    → (q : ℕ) → n + suc p ≤ q
    → set hs p v q ≡ idle
set_below n p hs v h q le = ground (arith, h q (omega arith))

Step-Below : {w v : World} → Step w v → (n : ℕ) × Below n w → (n : ℕ) × Below n v
unfolding Below
Step-Below (create sock) h = h
Step-Below (assign e) h = h
Step-Below (enter {hs = hs} p x open_ room free) (n, h) = (n + suc p, set_below n p hs _ h)
Step-Below (answer {hs = hs} p x b i was e) (n, h) = (n + suc p, set_below n p hs _ h)
Step-Below (leave {hs = hs} p x b was e) (n, h) = (n + suc p, set_below n p hs _ h)
Step-Below (unload quiet e) h = h

Reach-Below : {w v : World} → Reach w v → (n : ℕ) × Below n w → (n : ℕ) × Below n v
Reach-Below here h = h
Reach-Below (r then st) h = Step-Below st (Reach-Below r h)

all_finished :
    (n : ℕ) (w : World)
    → Below n w
    → (q : ℕ) → finished_below n w.handlers q ≡ finished (w.handlers q)
unfolding finished_below Below
all_finished n w h q = elim (Bool-cases (ltb q n)) [
  | inl below ↦ rw below refl
  | inr beyond ↦ rw (beyond, h q (ground arith)) refl
]

-- From where all handlers have ended, the module can be unloaded.
Unloads : World → Type 0
Unloads w =
    (v : World) × (sock : ℕ) × Reach w v
    × (v.phase ≡ unloaded sock)
    × ((q : ℕ) → v.handlers q ≡ w.handlers q)

assigned :
    (m : State) (sock : ℕ) → (m' : State) × (r : ℤ) × ((set_socket m sock).outcome ≡ done (m', r))
unfolding set_socket
assigned m sock = (record m { nl_sk = sock }, (if sock == 0 then pos 1 else pos 0), ground arith)

exited : (m : State) → (netlink_exit m).outcome ≡ done tt
unfolding netlink_exit
exited m = ground arith

unload_from :
    (ph : Phase) (m : State) (hs : ℕ → Handler) (es : ℕ → List Event)
    → ((q : ℕ) → IsQuiet (hs q))
    → Unloads (world m ph hs es)
unfolding Unloads
unload_from (unloaded sock) m hs es quiet = (_, sock, here, refl, λ q. refl)
unload_from (loaded sock r) m hs es quiet =
    (_, sock, here then unload quiet (exited m), refl, λ q. refl)
unload_from (creating sock) m hs es quiet =
    let (m', r, e) = assigned m sock in
    (_, sock, here then assign e then unload quiet (exited m'), refl, λ q. refl)
unload_from loading m hs es quiet =
    let (m', r, e) = assigned m 0 in
    (_, 0, here then create 0 then assign e then unload quiet (exited m'), refl, λ q. refl)

-- nl.c is loaded with both variables 0, and handlers of its messages run, any number at a time, each
-- with room for the greeting in the headers that it is given. Then wherever its loading, its handlers and its unloading
-- stand, they can go on to where the module is unloaded and each handler that was called has ended.
pub handlers_end :
    (w : World)
    → Reach start w
    → (v : World) × (sock : ℕ) × Reach w v
      × (v.phase ≡ unloaded sock)
      × ((q : ℕ) → v.handlers q ≡ finished (w.handlers q))
unfolding Below Unloads
handlers_end w r =
    let (n, below) = Reach-Below r (0, λ q le. refl) in
    let (v, r', phase, stands) = drain n w (Reach-rooms r) in
    let stands' : (q : ℕ) → v.handlers q ≡ finished (w.handlers q) =
      λ q. stands q ∙ all_finished n w below q in
    let (u, sock, r'', end, same) =
      unload_from v.phase v.memory v.handlers v.made
        (λ q. subst IsQuiet (sym (stands' q)) (finished-IsQuiet (w.handlers q))) in
    (u, sock, Reach-trans r' r'', end, λ q. same q ∙ stands' q)
