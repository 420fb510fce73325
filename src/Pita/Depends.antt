-- ===== src/Pita/Depends.antt =====
-- The variable that pita.c takes from base_lib.c: it is `short` there, and `int` here.
use yu.Prelude.{ℕ, ◌+◌, ◌<◌, ◌≢◌, ◌↔◌, arith}
use yu.BaseLib.{depends_size}
use yu.Pita.{State, test_open}

-- Of the bytes from the variable on, of those that are not 0, opening the file changes just those of
-- the variable, with its size in base_lib.c, and the next two, which are no part of it.
pub test_open-depends :
    (depends i : ℕ) (s : State)
    → s.memory (depends + i) ≢ 0
    → ((test_open depends s).0.memory (depends + i) ≢ s.memory (depends + i))
      ↔ (i < depends_size + 2)
unfolding test_open
test_open-depends depends i s n = (λ c. ground arith, λ l. ground arith)
