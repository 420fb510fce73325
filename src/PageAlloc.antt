-- ===== src/PageAlloc.antt =====
-- kmods/deubg_pagealloc/debug_pa.c (child `Debug`) and pagetable_walking/debug_pa.c (child `Walked`): two modules
-- that allocate pages when they are loaded, and free them when they are unloaded.
pub mod Debug
pub mod Walked
pub mod Pages
mod Tests
use yu.Prelude.{ℕ, ◌==◌, if◌then◌else◌, Bool, true, false, List, [], ◌∷◌}
use yu.Prelude.Int.{ℤ, pos}
use yu.Prelude.Trace.{Run, ◌>>=◌, ◌>>◌, pure, call, oops, run, after, and_then, done, fault}

pub data Event : Type 0 where
  get_free_pages : ℕ → ℕ → Event
  vmalloc : ℕ → ℕ → Event
  free_pages : ℕ → ℕ → Event
  vfree : ℕ → Event
  say_page : ℕ → Event
  say_word : ℕ → ℕ → Event
  say_vmalloc : ℕ → Event
  say_free_page : ℕ → Event
  say_free_both : ℕ → ℕ → Event

-- `!p`
abbrev pub is_null : ℕ → ℤ
is_null p = if p == 0 then pos 1 else pos 0
