-- ===== src/UserPages.antt =====
-- pagetable_walking/userpage.c and pagetable_walking/userhugepage.c: programs that map a page, write
-- a word to it, print where it is, and wait for a line of input, so that walk_pg_table.c can be
-- loaded for that address meanwhile.
pub mod Walked
mod Tests
use yu.Prelude.{ℕ, ◌-◌, ◌*◌, ◌^◌, Bool, true, false, ◌==◌, if◌then◌else◌}
use yu.Prelude.Int.{ℤ, pos}
use yu.Prelude.Trace.{Run, ◌>>=◌, ◌>>◌, pure, call, ask, oops, run, after, and_then, done, fault}

-- `mmap` of a size, shared and anonymous, with or without MAP_HUGETLB; `printf` of the process
-- number, the address and the word there.
pub data Event : Type 0 where
  mmap : ℕ → Bool → Event
  perror_mmap : Event
  store : ℕ → ℕ → Event
  getpid : Event
  printf : ℕ → ℕ → ℕ → Event
  scanf : Event
  munmap : ℕ → ℕ → Event

-- What the kernel returns. The address is a word.
pub record Answers : Type 0 where
  pub mmap_returns : ℕ
  pub getpid_returns : ℕ

abbrev pub map_failed : ℕ
map_failed = 2 ^ 64 - 1

-- The words of the mapping, by their addresses; a fresh one is zero.
abbrev Words : Type 0
Words = ℕ → ℕ

abbrev update : Words → ℕ → ℕ → Words
update words p w = λ q. if q == p then w else words q

-- `*p = w`; nothing is mapped at MAP_FAILED.
store_word : Words → ℕ → ℕ → Run Event Words
store_word words p w = if p == map_failed then oops else ask (store p w) (update words p w)

-- `main` of userpage.c. `perror` is called whether `mmap` fails or not.
pub userpage_main : Answers → Run Event ℤ
unfolding store_word
userpage_main a = do
  p ← ask (mmap 4096 false) a.mmap_returns
  call perror_mmap
  words ← store_word (λ q. 0) p 0xbeaf_beaf_beaf_beaf
  pid ← ask getpid a.getpid_returns
  call (printf pid p (words p))
  call scanf
  call (munmap p 4096)
  pure (pos 0)

-- `main` of userhugepage.c.
pub userhugepage_main : Answers → Run Event ℤ
unfolding store_word
userhugepage_main a = do
  p ← ask (mmap (24 * 1024 * 1024) true) a.mmap_returns
  call perror_mmap
  words ← store_word (λ q. 0) p 0xbeaf_beaf_beaf_beaf
  pid ← ask getpid a.getpid_returns
  call (printf pid p (words p))
  call scanf
  call (munmap p (24 * 1024 * 1024))
  pure (pos 0)
