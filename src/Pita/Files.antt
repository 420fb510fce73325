-- ===== src/Pita/Files.antt =====
-- Which entries pita.c has in debugfs.
use yu.Prelude.{ℕ, ◌≡◌, not, ◌&&◌, ◌==◌, List, [], ◌∷◌, if◌then◌else◌, arith}
use yu.Prelude.Int.{ℤ, pos, negsuc, is_zero}
use yu.Prelude.Trace.{done}
use yu.Pita.{
  Event, State, Answers, debugfs_create_dir, debugfs_create_file, debugfs_remove,
  debugfs_remove_recursive, pita_init, pita_exit,
}

-- The directory entry and its file after the calls: a call that returns null creates nothing;
-- `debugfs_remove` takes away an empty directory, `debugfs_remove_recursive` one with its files.
pub record Entries : Type 0 where
  pub dir : List ℕ
  pub files : List ℕ

abbrev pub drop : ℕ → List ℕ → List ℕ
drop d [] = []
drop d (e ∷ es) = if e == d then drop d es else e ∷ drop d es

abbrev pub follow : Entries → List Event → Entries
follow st [] = st
follow st (debugfs_create_dir d ∷ es) =
    follow (if d == 0 then st else record st { dir = d ∷ st.dir }) es
follow st (debugfs_create_file d f ∷ es) =
    follow (if f == 0 then st else record st { files = f ∷ st.files }) es
follow st (debugfs_remove d ∷ es) =
    follow (elim st.files [ [] ↦ record st { dir = drop d st.dir } | f ∷ fs ↦ st ]) es
follow st (debugfs_remove_recursive d ∷ es) =
    follow (if d == 0 then st else record { dir = drop d st.dir; files = [] }) es
follow st (_ ∷ es) = follow st es

abbrev pub nothing : Entries
nothing = record { dir = []; files = [] }

-- `pita_init` ends, with 0 exactly if both entries are created, and then has just these; else it
-- has none. `pita_exit` then leaves none.
pub pita_init_entries :
    (a : Answers) (s : State)
    → (s' : State) × (ret : ℤ) × ((pita_init a s).outcome ≡ done (s', ret))
      × (is_zero ret ≡ (not (a.dir == 0) && not (a.file == 0)))
      × (follow nothing (pita_init a s).calls
          ≡ (if is_zero ret then record { dir = a.dir ∷ []; files = a.file ∷ [] } else nothing))
      × (follow (follow nothing (pita_init a s).calls) (pita_exit s').calls ≡ nothing)
unfolding pita_init pita_exit
pita_init_entries a s = (
  (if a.dir == 0
      then record s { d_pita = a.dir }
      else record s { d_pita = a.dir; d_test = a.file }),
  (if a.dir == 0 then negsuc 0 else if a.file == 0 then negsuc 0 else pos 0),
  ground arith,
  ground arith,
  ground arith,
  ground arith,
)
