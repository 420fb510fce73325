-- ===== src/Waitqueue/Unload/Can.antt =====
-- The loading and the unloading of waitqueue.c create threads that are new, and stop those that are there.
use yu.Prelude.{ℕ, ◌≡◌, refl, Bool, true, not, ◌&&◌, ◌||◌, List, [], ◌∷◌, ◌++◌, arith}
use yu.Waitqueue.{Event}
use yu.Waitqueue.Unload.{Effect, plain, creates, wakes, stops, effect}
use yu.Waitqueue.Unload.Calls.{elem, elem-append, to_create, to_stop, stops_by}

-- Whether the calls create only threads that are not there, and stop only those that are.
abbrev pub can : List ℕ → List Event → Bool
can known [] = true
can known (e ∷ es) = elim (effect e) [
  | plain ↦ can known es
  | creates i p ↦ not (elem p known) && can (p ∷ known) es
  | wakes p ↦ can known es
  | stops p ↦ elem p known && can known es
]

-- What follows calls can be made with the threads that these create.
abbrev After : List ℕ → List Event → List Event → Type 0
After ks es fs =
    (ls : List ℕ) → ((q : ℕ) → elem q ls ≡ (elem q (to_create es) || elem q ks)) → can ls fs ≡ true

can-append_by :
    (x : Effect) (e : Event) (es fs : List Event) (ks : List ℕ)
    → effect e ≡ x
    → ((js : List ℕ) → can js es ≡ true → After js es fs → can js (es ++ fs) ≡ true)
    → can ks (e ∷ es) ≡ true
    → After ks (e ∷ es) fs
    → can ks ((e ∷ es) ++ fs) ≡ true
can-append_by plain e es fs ks x next c h =
    let rest = next ks (ground (arith, c)) (λ ls g. h ls (λ q. ground (arith, g q))) in
    ground (arith, rest)
can-append_by (creates i p) e es fs ks x next c h =
    let rest = next (p ∷ ks) (ground (arith, c)) (λ ls g. h ls (λ q. ground (arith, g q))) in
    ground (arith, rest, c)
can-append_by (wakes p) e es fs ks x next c h =
    let rest = next ks (ground (arith, c)) (λ ls g. h ls (λ q. ground (arith, g q))) in
    ground (arith, rest)
can-append_by (stops p) e es fs ks x next c h =
    let rest = next ks (ground (arith, c)) (λ ls g. h ls (λ q. ground (arith, g q))) in
    ground (arith, rest, c)

pub can-append :
    (es fs : List Event) (ks : List ℕ)
    → can ks es ≡ true
    → After ks es fs
    → can ks (es ++ fs) ≡ true
can-append [] fs ks c h = h ks (λ q. refl)
can-append (e ∷ es) fs ks c h = can-append_by (effect e) e es fs ks refl (can-append es fs) c h

can_stops_by :
    (x : Effect) (e : Event) (es : List Event) (ks : List ℕ)
    → effect e ≡ x
    → to_create (e ∷ es) ≡ []
    → ((p : ℕ) → elem p (to_stop (e ∷ es)) ≡ true → elem p ks ≡ true)
    → can ks es ≡ true
    → can ks (e ∷ es) ≡ true
can_stops_by plain e es ks x none_made h rest = ground arith
can_stops_by (creates i p) e es ks x none_made h rest = absurd (ground arith)
can_stops_by (wakes p) e es ks x none_made h rest = ground arith
can_stops_by (stops p) e es ks x none_made h rest =
    let first : elem p ks ≡ true = h p (ground arith) in ground (arith, first, rest)

pub can_stops :
    (es : List Event) (ks : List ℕ)
    → to_create es ≡ []
    → ((p : ℕ) → elem p (to_stop es) ≡ true → elem p ks ≡ true)
    → can ks es ≡ true
can_stops [] ks none_made h = refl
can_stops (e ∷ es) ks none_made h =
    let rest =
      can_stops es ks (ground (arith, none_made))
        (λ p m. h p (ground (arith, m, elem-append p (stops_by e) (to_stop es)))) in
    can_stops_by (effect e) e es ks refl none_made h rest
