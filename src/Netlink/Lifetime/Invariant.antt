-- ===== src/Netlink/Lifetime/Invariant.antt =====
-- What holds throughout the life of nl.c.
use yu.Prelude.Calls.{count, count-append, collect-append}
use yu.Prelude.{
  ℕ, ◌+◌, ◌≡◌, refl, sym, ◌∙◌, ap, ap₂, Bool, List, [], ◌∷◌, ◌++◌, ◌==◌, if◌then◌else◌, arith,
}
use yu.Prelude.Int.{ℤ, pos}
use yu.Prelude.Trace.{done}
use yu.Netlink.{State, Event, netlink_kernel_create, set_socket, netlink_init, netlink_exit}
use yu.Netlink.Receive.{
  HasRoom, is_get, gets, is_free, frees, is_unicast, unicasts, releases_by, releases,
  nl_data_ready_balance, nl_data_ready_releases,
}
use yu.Netlink.Lifetime.{
  Message, Phase, loading, creating, loaded, unloaded, World, world, handle, Step, create,
  receive_early, assign, receive, unload, Reach, here, ◌then◌, start, is_long, is_short, socket,
  answers_to, total, flag_after, released, Returns,
}

-- What the module has in `nl_sk`, and what its `init` has returned.
abbrev Placed : Phase → ℕ → List Message → Type 0
Placed loading sk late = (sk ≡ 0) × (late ≡ [])
Placed (creating sock) sk late = (sk ≡ 0) × (late ≡ [])
Placed (loaded sock r) sk late = (sk ≡ sock) × (r ≡ (if sock == 0 then pos 1 else pos 0))
Placed (unloaded sock) sk late = sk ≡ sock

record IsSound (w : World) : Type 0 where
  flagged : w.memory.flag ≡ flag_after (count is_long w.early + count is_long w.late)
  references : gets w.calls ≡ frees w.calls + (count is_short w.early + count is_short w.late)
  sends : unicasts w.calls ≡ total (socket w.phase) w.late
  releasing : releases w.calls ≡ released w.phase
  placed : Placed w.phase w.memory.nl_sk w.late

-- What a step adds to the history: the variables, and what its calls hold.
record Adds (m m' : State) (es : List Event) (longs shorts sent : ℕ) (sk : ℕ) (rel : List ℕ)
    : Type 0 where
  flag : m'.flag ≡ (if longs == 0 then m.flag else 1)
  nl_sk : m'.nl_sk ≡ sk
  references : gets es ≡ frees es + shorts
  sends : unicasts es ≡ sent
  releasing : releases es ≡ rel

done-eq : {A : Type 0} {a b : A} → done a ≡ done b → a ≡ b
done-eq e = cc

count-cons :
    {A : Type 0} (f : A → Bool) (x : A) (xs : List A)
    → count f (x ∷ xs) ≡ (if f x then 1 else 0) + count f xs
count-cons f x xs = ground arith

handle-Adds :
    (m m' : State) (x : Message)
    → ((i : ℕ) → HasRoom (x.replies i))
    → (handle m x).outcome ≡ done m'
    → Adds m m'
        (handle m x).calls
        (if is_long x then 1 else 0)
        (if is_short x then 1 else 0)
        (answers_to m.nl_sk x)
        m.nl_sk
        []
handle-Adds m m' x room e =
    let (ended, refs, sent) = nl_data_ready_balance m x.replies x.skb room in
    let rels = nl_data_ready_releases m x.replies x.skb room in
    let new = done-eq (sym e ∙ ended) in
    record {
      flag = ground (arith, new);
      nl_sk = ground (arith, new);
      references = ground (arith, refs);
      sends = sent;
      releasing = rels;
    }

set_socket-Adds :
    (m m' : State) (sock : ℕ) (r : ℤ)
    → (set_socket m sock).outcome ≡ done (m', r)
    → Adds m m' (set_socket m sock).calls 0 0 0 sock [] × (r ≡ (if sock == 0 then pos 1 else pos 0))
unfolding set_socket
set_socket-Adds m m' sock r e = ground arith

netlink_exit-Adds :
    (m : State)
    → Adds m m (netlink_exit m).calls 0 0 0 m.nl_sk (if m.nl_sk == 0 then [] else m.nl_sk ∷ [])
unfolding netlink_exit
netlink_exit-Adds m = ground arith

-- What a step adds is added to what held.
IsSound-Adds :
    (w v : World) (fs : List Event) (longs shorts sent sk : ℕ) (rel : List ℕ)
    → IsSound w
    → Adds w.memory v.memory fs longs shorts sent sk rel
    → v.calls ≡ w.calls ++ fs
    → count is_long v.early + count is_long v.late
      ≡ longs + (count is_long w.early + count is_long w.late)
    → count is_short v.early + count is_short v.late
      ≡ shorts + (count is_short w.early + count is_short w.late)
    → total (socket v.phase) v.late ≡ sent + total (socket w.phase) w.late
    → released v.phase ≡ released w.phase ++ rel
    → Placed v.phase sk v.late
    → IsSound v
IsSound-Adds w v fs longs shorts sent sk rel h a calls more_long more_short more_sent more_rel
      placed =
    record {
      flagged = ground arith;
      references = rw calls (
          omega
            (arith, count-append is_get w.calls fs, count-append is_free w.calls fs, a.references));
      sends = rw calls (omega (arith, count-append is_unicast w.calls fs, a.sends));
      releasing =
          ap releases calls
          ∙ collect-append releases_by w.calls fs
          ∙ ap₂ ◌++◌ h.releasing a.releasing
          ∙ sym more_rel;
      placed = rw a.nl_sk placed;
    }

Step-IsSound : {w v : World} → Step w v → IsSound w → IsSound v
Step-IsSound (create {m} {es} {early} {late} sock) h =
    IsSound-Adds _ _ (netlink_kernel_create 25 ∷ []) 0 0 0 0 [] h
      (record {
        flag = refl;
        nl_sk = h.placed.0;
        references = refl;
        sends = refl;
        releasing = refl;
      })
      refl (omega arith) (omega arith) (rw h.placed.1 refl) refl (refl, h.placed.1)
Step-IsSound (receive_early {m} {m'} {es} {early} {late} {sock} x open_ room e) h =
    IsSound-Adds _ _ _ _ _ _ _ _ h (handle-Adds m m' x room e) refl
      (omega (arith, count-cons is_long x early)) (omega (arith, count-cons is_short x early))
      (rw h.placed.0 (ground arith)) refl h.placed
Step-IsSound (assign {m} {m'} {es} {early} {late} {sock} {r} e) h =
    let (a, result) = set_socket-Adds m m' sock r e in
    IsSound-Adds _ _ _ 0 0 0 sock [] h a refl (omega arith) (omega arith) (omega arith) refl
      (refl, result)
Step-IsSound (receive {m} {m'} {es} {early} {late} {sock} x open_ room e) h =
    IsSound-Adds _ _ _ _ _ _ _ _ h (handle-Adds m m' x room e) refl
      (omega (arith, count-cons is_long x late)) (omega (arith, count-cons is_short x late))
      (ap (λ n. answers_to n x + total sock late) (sym h.placed.0)) refl h.placed
Step-IsSound (unload {m} e) h =
    IsSound-Adds _ _ _ 0 0 0 _ _ h (netlink_exit-Adds m) refl (omega arith) (omega arith)
      (omega arith) (ap (λ n. if n == 0 then [] else n ∷ []) (sym h.placed.0)) h.placed.0

Reach-IsSound : {w v : World} → Reach w v → IsSound w → IsSound v
Reach-IsSound here h = h
Reach-IsSound (r then st) h = Step-IsSound st (Reach-IsSound r h)

Placed-Returns : (p : Phase) (sk : ℕ) (late : List Message) → Placed p sk late → Returns p
Placed-Returns (loaded sock r) sk late h = h.1
Placed-Returns loading sk late h = tt
Placed-Returns (creating sock) sk late h = tt
Placed-Returns (unloaded sock) sk late h = tt

-- Of a module that is loaded with both variables 0, whether its socket is created or not, and
-- whatever messages come, before or after the socket is assigned to `nl_sk`, each handled whole and
-- with room for the greeting in the headers that it is given: `flag` is 1 exactly if a message came
-- that is long enough for a header; the references taken to received buffers and not given back are
-- as many as the messages that are too short; the messages sent are those that the socket's answers
-- to the messages after the assignment give, and none for the earlier ones; the socket that was
-- created is released once, when the module is unloaded, and never before; and a module that is
-- loaded has returned 1 exactly if it has no socket, and else 0.
pub netlink_lifetime :
    (w : World)
    → Reach start w
    → (w.memory.flag ≡ flag_after (count is_long w.early + count is_long w.late))
      × (gets w.calls ≡ frees w.calls + (count is_short w.early + count is_short w.late))
      × (unicasts w.calls ≡ total (socket w.phase) w.late)
      × (releases w.calls ≡ released w.phase)
      × Returns w.phase
netlink_lifetime w r =
    let h = Reach-IsSound r (record {
      flagged = refl;
      references = refl;
      sends = refl;
      releasing = refl;
      placed = (refl, refl);
    }) in
    (h.flagged, h.references, h.sends, h.releasing, Placed-Returns w.phase _ _ h.placed)

-- Where no message comes in between, the loading is `netlink_init`.
pub netlink_init-Reach :
    (sock : ℕ)
    → (s : State) × (r : ℤ) × ((netlink_init start.memory sock).outcome ≡ done (s, r))
      × Reach start (world s (loaded sock r) (netlink_init start.memory sock).calls [] [])
unfolding netlink_init set_socket
netlink_init-Reach sock =
    let s : State = record { nl_sk = sock; flag = 0 } in
    let r : ℤ = if sock == 0 then pos 1 else pos 0 in
    (s, r, ground arith, here then create sock then assign (ground arith))
