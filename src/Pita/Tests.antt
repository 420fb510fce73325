-- ===== src/Pita/Tests.antt =====
-- Runs of pita.c.
use mathlib.Core.List.{map}
use mathlib.Core.Path.{subst}
use yu.Prelude.{
  ℕ, ◌≡◌, ◌≢◌, ◌↔◌, ◌<◌, ◌+◌, false, Option, none, some, List, [], ◌∷◌, if◌then◌else◌, none-ne-some,
  leb, ltb, ◌&&◌, arith,
}
use yu.Prelude.Int.{ℤ, pos, negsuc, is_zero}
use yu.Prelude.Trace.{done}
use yu.BaseLib.{depends_size}
use yu.Pita.{State, Answers, test_open, pita_init, pita_exit}
use yu.Pita.Depends.{test_open-depends}
use yu.Pita.Files.{nothing, follow, pita_init_entries}
use yu.Pita.Writes.{Write, FitsInt, to_int, traces, numbers, traces-numbers}
use yu.Pita.Writes.{traced}
use yu.Pita.Uses.{Request, opening, reading, writing, seeking, life, life-requests}

abbrev fresh : State
fresh = record { d_pita = 0; d_test = 0; memory = λ q. 0 }

-- The file cannot be created.
abbrev no_file : Answers
no_file = record { dir = 4; file = 0 }

pita_init_entries_example :
    (s' : State) × (ret : ℤ) × ((pita_init no_file fresh).outcome ≡ done (s', ret))
    × (is_zero ret ≡ false)
    × (follow nothing (pita_init no_file fresh).calls
        ≡ (if is_zero ret then record { dir = 4 ∷ []; files = 0 ∷ [] } else nothing))
    × (follow (follow nothing (pita_init no_file fresh).calls) (pita_exit s').calls ≡ nothing)
pita_init_entries_example = pita_init_entries no_file fresh

-- A parser that takes every text but the empty one for -7.
abbrev parse : List ℕ → ℕ → Option ℤ
parse [] cnt = none
parse (b ∷ bs) cnt = some (negsuc 6)

abbrev FoundFitsInt : Option ℤ → Type 0
FoundFitsInt none = Unit {0}
FoundFitsInt (some z) = FitsInt z

parse-FitsInt : (text : List ℕ) (cnt : ℕ) (z : ℤ) → parse text cnt ≡ some z → FitsInt z
parse-FitsInt [] cnt z h = none-ne-some h
parse-FitsInt (b ∷ bs) cnt z h = subst FoundFitsInt h (omega arith)

abbrev writes : List Write
writes = record { text = 7 ∷ []; cnt = 1 } ∷ record { text = []; cnt = 0 } ∷ []

numbers_parsed : map to_int (traces parse writes) ≡ numbers parse writes
numbers_parsed = traces-numbers parse writes parse-FitsInt

-- A module whose memory holds 1 everywhere.
depends_cleared :
    (◌≢◌ {A = ℕ} ((test_open 4096 (record fresh { memory = λ q. 1 })).0.memory 4099) 1)
    ↔ (3 < depends_size + 2)
depends_cleared = test_open-depends 4096 3 (record fresh { memory = λ q. 1 }) (ground arith)

abbrev both : Answers
both = record { dir = 4; file = 5 }

abbrev seek : ℤ → ℤ → ℤ
seek offset whence = offset

abbrev requests : List Request
requests = opening ∷ writing (7 ∷ []) 1 ∷ writing [] 0 ∷ reading 64 ∷ seeking (pos 3) (pos 0) ∷ []

life-requests_example :
    (s' : State) × ((life parse seek 4096 both fresh requests).outcome
      ≡ done (s', pos 0 ∷ pos 1 ∷ negsuc 21 ∷ pos 0 ∷ pos 3 ∷ []))
    × (map to_int (traced (life parse seek 4096 both fresh requests).calls) ≡ negsuc 6 ∷ [])
    × (follow nothing (life parse seek 4096 both fresh requests).calls ≡ nothing)
    × ((q : ℕ) → s'.memory q ≡ (if leb 4096 q && ltb q 4100 then 0 else 0))
life-requests_example = life-requests parse seek 4096 parse-FitsInt both fresh requests
