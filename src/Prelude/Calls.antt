-- ===== src/Prelude/Calls.antt =====
-- What a list of calls holds: how many of a kind, and what they are given. A part of a run is a part
-- of its list, and both take the list apart.
use Prim.Native.Nat.{ℕ, suc, ◌+◌}
use mathlib.Core.Path.{◌≡◌, refl}
use mathlib.Core.Logic.{inl, inr}
use mathlib.Core.Bool.{Bool}
use mathlib.Core.List.{List, [], ◌∷◌, ◌++◌, append_assoc, append-nil}
use native.Mathlib.Omega.{arith}
use yu.Prelude.Tests.{if◌then◌else◌, Bool-cases}

module _ {E : Type 0} where
  abbrev pub count : (E → Bool) → List E → ℕ
  count f [] = 0
  count f (e ∷ es) = if f e then suc (count f es) else count f es

  pub count-append : (f : E → Bool) (es fs : List E) → count f (es ++ fs) ≡ count f es + count f fs
  count-append f [] fs = omega arith
  count-append f (e ∷ es) fs = elim (Bool-cases (f e)) [
    | inl hit ↦ rw hit (omega (arith, count-append f es fs))
    | inr miss ↦ rw miss (count-append f es fs)
  ]

  abbrev pub collect : {A : Type 0} → (E → List A) → List E → List A
  collect f [] = []
  collect f (e ∷ es) = f e ++ collect f es

  pub collect-append :
      {A : Type 0} (f : E → List A) (es fs : List E)
      → collect f (es ++ fs) ≡ collect f es ++ collect f fs
  collect-append f [] fs = refl
  collect-append f (e ∷ es) fs = rw (collect-append f es fs) (simp append_assoc)

-- The calls of a run that is made of parts.
pub ruleset call_laws = (count-append, collect-append, append-nil)
