-- ===== src/Hello/Protocol.antt =====
-- The order of calls that libnotify asks for.
use yu.Prelude.{ℕ, ◌≡◌, refl, Option, none, some, List, [], ◌∷◌, ◌==◌, if◌then◌else◌, arith}
use yu.Prelude.Int.{pos}
use yu.Prelude.Trace.{done}
use yu.Hello.{
  Event, notify_init, notify_notification_new, notify_notification_show, g_object_unref,
  notify_uninit, main,
}

-- Where a client of the library stands; `held` is a notification that it has, and whether it was shown.
data Client : Type 0 where
  outside inside : Client
  held shown : ℕ → Client

-- A call that is out of order is refused. `given` is what the library gives.
abbrev next : ℕ → Client → Event → Option Client
next given outside (notify_init name) = some inside
next given inside (notify_notification_new summary body icon) = some (held given)
next given inside notify_uninit = some outside
next given (held p) (notify_notification_show q) = if q == p then some (shown p) else none
next given (held p) (g_object_unref q) = if q == p then some inside else none
next given (shown p) (notify_notification_show q) = if q == p then some (shown p) else none
next given (shown p) (g_object_unref q) = if q == p then some inside else none
next given c e = none

abbrev follow : ℕ → Client → List Event → Option Client
follow given c [] = some c
follow given c (e ∷ es) = elim (next given c e) [ none ↦ none | some d ↦ follow given d es ]

-- The program makes its calls in order, gives back what it has, and ends with 0.
main-follow :
    (hello : ℕ)
    → (follow hello outside (main hello).calls ≡ some outside)
      × ((main hello).outcome ≡ done (pos 0))
unfolding main
main-follow hello = (ground arith, refl)
