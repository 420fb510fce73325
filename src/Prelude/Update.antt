-- ===== src/Prelude/Update.antt =====
-- Families by number, such as threads and handlers, of which one member changes.
use Prim.Native.Nat.{ℕ}
use mathlib.Core.Path.{◌≡◌, refl, ap, ◌∙◌}
use mathlib.Core.Logic.{inl, inr}
use mathlib.Core.Bool.{true}
use native.Mathlib.Omega.{arith}
use yu.Prelude.Tests.{◌==◌, if◌then◌else◌, Bool-cases}

abbrev pub set {ℓ} : {A : Type ℓ} → (ℕ → A) → ℕ → A → ℕ → A
set f p v q = if q == p then v else f q

pub ==_refl : (n : ℕ) → (n == n) ≡ true
==_refl n = ground arith

pub ==→≡ : (p q : ℕ) → (q == p) ≡ true → q ≡ p
==→≡ p q h = ground arith

pub set_self : {A : Type 0} (f : ℕ → A) (p : ℕ) (v : A) → set f p v p ≡ v
set_self f p v = ground arith

pub set_again :
    {A : Type 0} (f : ℕ → A) (p : ℕ) (u v : A) (q : ℕ) → set (set f p u) p v q ≡ set f p v q
set_again f p u v q = ground arith

-- A member that is set to what it is.
pub set_same : {A : Type 0} (f : ℕ → A) (p : ℕ) (v : A) → f p ≡ v → (q : ℕ) → f q ≡ set f p v q
set_same f p v h q = elim (Bool-cases (q == p)) [
  | inl same ↦ rw same (ap f (==→≡ p q same) ∙ h)
  | inr other ↦ rw other refl
]
