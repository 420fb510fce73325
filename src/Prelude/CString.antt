-- ===== src/Prelude/CString.antt =====
-- Strings in memory, as C reads them: the bytes up to the first null byte.
use Prim.Native.Char.{code}
use Prim.Native.String.{String}
use Prim.Native.Nat.{ℕ}
use mathlib.Core.Path.{◌≡◌, refl}
use mathlib.Core.Bool.{false}
use mathlib.Core.List.{List, [], ◌∷◌, ◌++◌}
use native.Mathlib.Omega.{arith}
use yu.Prelude.Tests.{◌==◌, if◌then◌else◌}

-- The bytes of an ASCII literal.
abbrev pub codes : String → List ℕ
codes String.[] = []
codes (String.◌∷◌ c s) = code c ∷ codes s

-- The string in a buffer ends at its first null byte.
unfoldable pub c_string : List ℕ → List ℕ
c_string [] = []
c_string (c ∷ cs) = if c == 0 then [] else c ∷ c_string cs

-- No byte is null.
abbrev pub NoNull : List ℕ → Type 0
NoNull [] = Unit {0}
NoNull (c ∷ cs) = ((c == 0) ≡ false) × NoNull cs

pub c_string-NoNull : (cs : List ℕ) → NoNull cs → c_string cs ≡ cs
unfolding c_string
c_string-NoNull [] h = refl
c_string-NoNull (c ∷ cs) h = ground (arith, c_string-NoNull cs h.1)

-- A string that is stored with its null byte is read back.
pub c_string-append : (cs rest : List ℕ) → NoNull cs → c_string (cs ++ (0 ∷ rest)) ≡ cs
unfolding c_string
c_string-append [] rest h = refl
c_string-append (c ∷ cs) rest h = ground (arith, c_string-append cs rest h.1)
