-- ===== src/Netlink/Send.antt =====
-- What `sendnlmsg` sends, on each of its branches.
use yu.Prelude.{
  ℕ, ◌+◌, ◌≤◌, ◌<◌, ◌≡◌, ◌≢◌, ◌↔◌, ap, true, false, Option, none, some, List, [], ◌∷◌, ◌++◌, ◌==◌,
  if◌then◌else◌, length, get_elem?, drop, length-append, length-drop, arith, dec_lt,
}
use yu.Prelude.CString.{c_string, NoNull}
use yu.Prelude.Trace.{Run, run, done, fault}
use yu.Netlink.Memory.{
  stringlength-length, memcpy-drop, memcpy-fault, store-fault, take_front, drop_two, store-behind,
  get-drop,
}
use yu.Netlink.{
  State, Reply, Event, say_portid, alloc_skb, say_alloc_error, nlmsg_put, warn_put, set_cb,
  say_send, netlink_unicast, fill_and_send, sendnlmsg,
}

-- What is sent: the string, the byte that the payload held behind it, a null byte, and the rest of
-- the payload.
record IsFilled (r : Run Event (Unit {0})) (sock portid : ℕ) (m stale : List ℕ) : Type 0 where
  byte : ℕ
  back : List ℕ
  kept : get_elem? stale (length m) ≡ some byte
  behind : drop (length m + 2) stale ≡ back
  runs :
      r
      ≡ run
          (set_cb 0 0
            ∷ say_send (c_string (m ++ (byte ∷ 0 ∷ back)))
            ∷ netlink_unicast sock portid (m ++ (byte ∷ 0 ∷ back))
            ∷ [])
          (done tt)

fill_and_send-IsFilled :
    (s : State) (m rest stale : List ℕ) (portid : ℕ)
    → length m + 2 ≤ length stale
    → IsFilled (fill_and_send s (m ++ (0 ∷ rest)) (length m) portid stale) s.nl_sk portid m stale
unfolding fill_and_send
fill_and_send-IsFilled s m rest stale portid h =
    let (x, y, ys, e) = drop_two (length m) stale h in
    let (kept, behind) = get-drop (length m) stale e in
    record {
      byte = x;
      back = ys;
      kept = kept;
      behind = behind;
      runs =
          rw (take_front m (0 ∷ rest), memcpy-drop stale m (omega arith), e, store-behind m x y ys);
    }

-- The payload of the message that a run sends, if it sends one.
abbrev pub sent : List Event → Option (List ℕ)
sent [] = none
sent (netlink_unicast sock portid payload ∷ es) = some payload
sent (_ ∷ es) = sent es

pub c_string-garbage :
    (m : List ℕ) (x : ℕ) (back : List ℕ) → NoNull m → (c_string (m ++ (x ∷ 0 ∷ back)) ≡ m) ↔ (x ≡ 0)
unfolding c_string
c_string-garbage [] x back h = ground arith
c_string-garbage (c ∷ m) x back h = ground (arith, c_string-garbage m x back h.1)

-- A string that fits, with the socket open and both allocations granted: the run ends, and has sent
-- one message, whose payload begins with the string, keeps the next byte as `nlmsg_put` left it, has
-- a null byte after that, and is as long as it was.
pub sendnlmsg-sent :
    (s : State) (reply : Reply) (m rest stale : List ℕ) (portid : ℕ)
    → s.nl_sk ≢ 0
    → reply.alloc_skb ≡ true
    → reply.nlmsg_put ≡ some stale
    → NoNull m
    → length m + 2 ≤ length stale
    → (x : ℕ) × (get_elem? stale (length m) ≡ some x)
      × (sendnlmsg s reply (some (m ++ (0 ∷ rest))) portid
          ≡ run
              (let p = m ++ (x ∷ 0 ∷ drop (length m + 2) stale) in
                say_portid portid
                ∷ alloc_skb 1040
                ∷ nlmsg_put 1024
                ∷ set_cb 0 0
                ∷ say_send (c_string p)
                ∷ netlink_unicast s.nl_sk portid p
                ∷ [])
              (done tt))
unfolding sendnlmsg
sendnlmsg-sent s reply m rest stale portid sock alloc put h fits =
    let f = fill_and_send-IsFilled s m rest stale portid fits in
    let is_open : (s.nl_sk == 0) ≡ false = ground arith in
    (f.byte, f.kept, rw (is_open, alloc, stringlength-length m rest h, put, f.runs, f.behind))

-- For a string that fits the payload with two bytes to spare, with the socket open and both
-- allocations granted, the receiver of the message reads the string that was sent exactly when the
-- byte behind the string in the new payload was null before: the null byte is stored one place too
-- far.
pub sendnlmsg-string :
    (s : State) (reply : Reply) (m rest stale : List ℕ) (portid : ℕ)
    → s.nl_sk ≢ 0
    → reply.alloc_skb ≡ true
    → reply.nlmsg_put ≡ some stale
    → NoNull m
    → length m + 2 ≤ length stale
    → (p : List ℕ) × (sent (sendnlmsg s reply (some (m ++ (0 ∷ rest))) portid).calls ≡ some p)
      × ((c_string p ≡ m) ↔ (get_elem? stale (length m) ≡ some 0))
sendnlmsg-string s reply m rest stale portid sock alloc put h fits =
    let (x, kept, runs) = sendnlmsg-sent s reply m rest stale portid sock alloc put h fits in
    let back = drop (length m + 2) stale in
    let g = c_string-garbage m x back h in
    (m ++ (x ∷ 0 ∷ back), rw runs, rw kept (λ e. ap some (g.0 e), λ e. g.1 (cc)))

-- With the socket open and both allocations granted, a string that does not fit the payload with
-- two bytes to spare is written over the end of the payload.
pub sendnlmsg-overflow :
    (s : State) (reply : Reply) (m rest stale : List ℕ) (portid : ℕ)
    → s.nl_sk ≢ 0
    → reply.alloc_skb ≡ true
    → reply.nlmsg_put ≡ some stale
    → NoNull m
    → length stale < length m + 2
    → (sendnlmsg s reply (some (m ++ (0 ∷ rest))) portid).outcome ≡ fault
unfolding sendnlmsg fill_and_send
sendnlmsg-overflow s reply m rest stale portid sock alloc put h long =
    let is_open : (s.nl_sk == 0) ≡ false = ground arith in
    rw (is_open, alloc, stringlength-length m rest h, put, take_front m (0 ∷ rest))
      (elim (dec_lt (length stale) (length m)) [
        | yes p ↦ rw (memcpy-fault stale m p)
        | no p ↦ rw (
          memcpy-drop stale m (omega arith),
          store-fault (m ++ drop (length m) stale) (1 + length m) 0 (
              omega (arith, length-append m (drop (length m) stale), length-drop (length m) stale)),
        )
      ])

-- The calls of a run that sends nothing, by what refuses: no socket, no buffer, or no header (whose
-- buffer is then kept). `none` where nothing refuses.
abbrev pub refusal : State → Reply → ℕ → Option (List Event)
refusal s reply portid =
    if s.nl_sk == 0
    then some []
    else if reply.alloc_skb
    then elim reply.nlmsg_put [
      | none ↦ some (say_portid portid ∷ alloc_skb 1040 ∷ nlmsg_put 1024 ∷ warn_put ∷ [])
      | some stale ↦ none
    ]
    else some (say_portid portid ∷ alloc_skb 1040 ∷ say_alloc_error ∷ [])

-- On every branch that refuses, these are the calls, and the run ends.
pub sendnlmsg-refusal :
    (s : State) (reply : Reply) (portid : ℕ) (m rest : List ℕ) {es : List Event}
    → NoNull m
    → refusal s reply portid ≡ some es
    → sendnlmsg s reply (some (m ++ (0 ∷ rest))) portid ≡ run es (done tt)
unfolding sendnlmsg
sendnlmsg-refusal s reply portid m rest h e = ground (arith, stringlength-length m rest h)
