-- ===== src/UserPages/Walked.antt =====
-- The programs and the module together: what walk_pg_table.c reports of the address that a program
-- has printed, while that waits for its input.
use yu.Prelude.{
  ℕ, ◌+◌, ◌*◌, ◌%◌, ◌^◌, ◌≡◌, ◌≢◌, refl, ap, ◌∙◌, Option, some, true, false, List, [], ◌∷◌, ◌==◌,
  arith,
}
use yu.Prelude.Calls.{collect}
use yu.Prelude.Int.{ℤ, pos}
use yu.Prelude.Trace.{Run, done}
use yu.PageWalk.{init_dummy, Kernel, slot}
use yu.PageWalk.Spec.{leaf, resolve}
use yu.PageWalk.Walk.{DirectMap, HasRoot, Report, report, walk-small, walk-huge}
use yu.UserPages.{Event, Answers, map_failed, store, printf, userpage_main, userhugepage_main}

-- What a program stores, and what it prints.
abbrev stored_by : Event → List (ℕ × ℕ)
stored_by (store p w) = (p, w) ∷ []
stored_by _ = []

abbrev pub stored : List Event → List (ℕ × ℕ)
stored = collect stored_by

abbrev printed_by : Event → List (ℕ × ℕ × ℕ)
printed_by (printf pid p w) = (pid, p, w) ∷ []
printed_by _ = []

abbrev pub printed : List Event → List (ℕ × ℕ × ℕ)
printed = collect printed_by

-- The words lie in physical memory, each at the start of a page of the level.
abbrev pub Resident : (ℕ → Option ℕ) → ℕ → ℕ → List (ℕ × ℕ) → Type 0
Resident phys root level [] = Unit {0}
Resident phys root level ((p, w) ∷ rest) =
    ((f : ℕ) × (resolve phys 3 p root ≡ some (leaf level f 0)) × (phys f ≡ some w))
    × Resident phys root level rest

-- The module, for each line that was printed, says that the word on the line is the content.
abbrev pub Confirmed : Kernel → List (ℕ × ℕ × ℕ) → Type 0
Confirmed k [] = Unit {0}
Confirmed k ((pid, p, w) ∷ rest) =
    ((init_dummy k p pid).outcome ≡ done (pos 0))
    × ((report (init_dummy k p pid).calls).content ≡ some w)
    × Confirmed k rest

-- What the calls of a program are, where its mapping succeeds.
pub record Shows (r : Run Event ℤ) (pid p w : ℕ) : Type 0 where
  pub ended : r.outcome ≡ done (pos 0)
  pub stores : stored r.calls ≡ (p, w) ∷ []
  pub lines : printed r.calls ≡ (pid, p, w) ∷ []

is_mapped : (p : ℕ) → p ≢ map_failed → (p == map_failed) ≡ false
is_mapped p h = ground arith

is_word : (p : ℕ) → (p == p) ≡ true
is_word p = ground arith

userpage_main-Shows :
    (a : Answers)
    → a.mmap_returns ≢ map_failed
    → Shows (userpage_main a) a.getpid_returns a.mmap_returns 0xbeaf_beaf_beaf_beaf
unfolding userpage_main
userpage_main-Shows a h =
    rw (is_mapped a.mmap_returns h, is_word a.mmap_returns)
      (record { ended = refl; stores = refl; lines = refl })

userhugepage_main-Shows :
    (a : Answers)
    → a.mmap_returns ≢ map_failed
    → Shows (userhugepage_main a) a.getpid_returns a.mmap_returns 0xbeaf_beaf_beaf_beaf
unfolding userhugepage_main
userhugepage_main-Shows a h =
    rw (is_mapped a.mmap_returns h, is_word a.mmap_returns)
      (record { ended = refl; stores = refl; lines = refl })

module _ (k : Kernel) (phys : ℕ → Option ℕ) (mapped : DirectMap k phys) (root : ℕ) where
  read_start :
      (f w : ℕ) → phys f ≡ some w → k.read (slot ((k.page_offset_base + f) % 2 ^ 64) 0) ≡ some w
  unfolding slot
  read_start f w h = ap k.read (omega arith) ∙ mapped f w h

  -- A program that has written a word to the start of a 4K page, and printed it.
  Shows-small :
      {r : Run Event ℤ} {pid p w : ℕ}
      → Shows r pid p w
      → HasRoot k pid root
      → p % 2 ^ 12 ≡ 0
      → Resident phys root 0 (stored r.calls)
      → Confirmed k (printed r.calls)
  Shows-small {r} {pid} {p} {w} s rooted aligned there =
      let ((f, at, word), _) = rw s.stores at there in
      let c =
        walk-small k phys mapped p pid root rooted f 0 w at (rw aligned (read_start f w word)) in
      rw s.lines (c.ended, ap (λ (r : Report). r.content) c.lines, tt)

  -- And to the start of a 2M page.
  Shows-huge :
      {r : Run Event ℤ} {pid p w : ℕ}
      → Shows r pid p w
      → HasRoot k pid root
      → p % 2 ^ 21 ≡ 0
      → Resident phys root 1 (stored r.calls)
      → Confirmed k (printed r.calls)
  Shows-huge {r} {pid} {p} {w} s rooted aligned there =
      let ((f, at, word), _) = rw s.stores at there in
      let z : k.page_offset_base + f + 4096 * 0 ≡ k.page_offset_base + f = omega arith in
      let first : p % 2 ^ 12 ≡ 0 = omega (arith, aligned) in
      let c =
        walk-huge k phys mapped p pid root rooted f 0 w at (rw (z, first) (read_start f w word)) in
      rw s.lines (c.ended, ap (λ (r : Report). r.content) c.lines, tt)

  module _ (a : Answers) (succeeds : a.mmap_returns ≢ map_failed)
      (rooted : HasRoot k a.getpid_returns root) where
    -- userpage.c, in a kernel that maps the physical memory and finds the process, where `mmap`
    -- succeeds with an address that is a multiple of 4K, and the word that the program stores lies
    -- at the start of a 4K page of its page table: the program ends, its one line has its number,
    -- the address and that word, and the module, loaded for the number and the address of the line,
    -- ends and reports the word of the line as the content.
    pub userpage_main-walked :
        a.mmap_returns % 2 ^ 12 ≡ 0
        → Resident phys root 0 (stored (userpage_main a).calls)
        → Shows (userpage_main a) a.getpid_returns a.mmap_returns 0xbeaf_beaf_beaf_beaf
          × Confirmed k (printed (userpage_main a).calls)
    userpage_main-walked aligned there =
        let s = userpage_main-Shows a succeeds in (s, Shows-small s rooted aligned there)

    -- userhugepage.c, where `mmap` succeeds with an address that is a multiple of 2M, and the word
    -- that the program stores lies at the start of a 2M page of its page table: the program ends,
    -- its one line has its number, the address and that word, and the module, loaded for the number
    -- and the address of the line, ends and reports the word of the line as the content.
    pub userhugepage_main-walked :
        a.mmap_returns % 2 ^ 21 ≡ 0
        → Resident phys root 1 (stored (userhugepage_main a).calls)
        → Shows (userhugepage_main a) a.getpid_returns a.mmap_returns 0xbeaf_beaf_beaf_beaf
          × Confirmed k (printed (userhugepage_main a).calls)
    userhugepage_main-walked aligned there =
        let s = userhugepage_main-Shows a succeeds in (s, Shows-huge s rooted aligned there)
