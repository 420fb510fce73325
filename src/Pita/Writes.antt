-- ===== src/Pita/Writes.antt =====
-- The events that pita.c records.
use yu.Prelude.Calls.{collect}
use mathlib.Core.List.{map}
use yu.Prelude.{
  ℕ, ◌-◌, ◌^◌, ◌<◌, ◌≡◌, refl, ap₂, Option, none, some, List, [], ◌∷◌, ◌++◌, ltb, if◌then◌else◌,
  Option-cases, inl, inr, arith,
}
use yu.Prelude.Int.{ℤ, pos, negsuc}
use yu.Pita.{Event, trace_pita, to_unsigned, test_write}

abbrev pub traced_by : Event → List ℕ
traced_by (trace_pita n) = n ∷ []
traced_by _ = []

abbrev pub traced : List Event → List ℕ
traced = collect traced_by

-- A number of 32 bits, read as an `int`.
abbrev pub to_int : ℕ → ℤ
to_int n = if ltb n (2 ^ 31) then pos n else negsuc (2 ^ 32 - 1 - n)

-- What an `int` can hold.
abbrev pub FitsInt : ℤ → Type 0
FitsInt (pos n) = n < 2 ^ 31
FitsInt (negsuc n) = n < 2 ^ 31

pub to_int-to_unsigned : (z : ℤ) → FitsInt z → to_int (to_unsigned z) ≡ z
to_int-to_unsigned (pos n) h = ground arith
to_int-to_unsigned (negsuc n) h = ground arith

-- A write to the file: its text and the size of that.
pub record Write : Type 0 where
  pub text : List ℕ
  pub cnt : ℕ

abbrev pub found : Option ℤ → List ℤ → List ℤ
found none rest = rest
found (some z) rest = z ∷ rest

module _ (kstrtoint_from_user : List ℕ → ℕ → Option ℤ) where
  -- Some writes, one after the other: the events, and the results that are returned.
  pub traces : List Write → List ℕ
  traces [] = []
  traces (w ∷ ws) = traced (test_write (kstrtoint_from_user w.text w.cnt) w.cnt).calls ++ traces ws

  abbrev pub numbers : List Write → List ℤ
  numbers [] = []
  numbers (w ∷ ws) = found (kstrtoint_from_user w.text w.cnt) (numbers ws)

  -- The numbers that the events hold, read as `int`, are those that the texts of the writes hold, in
  -- order, if the kernel's parser finds only what an `int` can hold; a text that is no number makes
  -- no event.
  pub traces-numbers :
      (ws : List Write)
      → ((text : List ℕ) (cnt : ℕ) (z : ℤ) → kstrtoint_from_user text cnt ≡ some z → FitsInt z)
      → map to_int (traces ws) ≡ numbers ws
  unfolding traces test_write
  traces-numbers [] h = refl
  traces-numbers (w ∷ ws) h = elim (Option-cases (kstrtoint_from_user w.text w.cnt)) [
    | inl bad ↦ rw bad (traces-numbers ws h)
    | inr (z, good) ↦
        rw good (ap₂ ◌∷◌ (to_int-to_unsigned z (h w.text w.cnt z good)) (traces-numbers ws h))
  ]
