-- ===== src/Status/Text.antt =====
-- What pid_status.c uses of the C library: `fgets` and `strstr`.
use yu.Prelude.{
  ℕ, zero, suc, ◌-◌, Bool, true, false, ◌&&◌, ◌||◌, Option, none, some, List, [], ◌∷◌, ◌==◌,
  if◌then◌else◌,
}

abbrev pub newline : ℕ
newline = 10

-- At most `room` bytes, up to and with a newline, and the bytes behind them.
unfoldable pub chunk : ℕ → List ℕ → List ℕ × List ℕ
chunk zero cs = ([], cs)
chunk (suc room) [] = ([], [])
chunk (suc room) (c ∷ cs) =
    let (line, rest) = chunk room cs in if c == newline then (c ∷ [], cs) else (c ∷ line, rest)

-- `fgets` into a buffer of `size` bytes, one of them for the null byte.
unfoldable pub fgets : ℕ → List ℕ → Option (List ℕ × List ℕ)
fgets size [] = none
fgets size (c ∷ cs) = some (chunk (size - 1) (c ∷ cs))

unfoldable pub starts_with : List ℕ → List ℕ → Bool
starts_with [] line = true
starts_with (c ∷ str) [] = false
starts_with (c ∷ str) (d ∷ line) = c == d && starts_with str line

-- Whether `strstr (line, str)` finds `str`.
unfoldable pub contains : List ℕ → List ℕ → Bool
contains str [] = starts_with str []
contains str (c ∷ line) = starts_with str (c ∷ line) || contains str line
