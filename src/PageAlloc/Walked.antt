-- ===== src/PageAlloc/Walked.antt =====
-- pagetable_walking/debug_pa.c: writes a word to each of its two allocations, and shows it.
use yu.Prelude.{ℕ, ◌==◌, if◌then◌else◌}
use yu.Prelude.Int.{ℤ}
use yu.Prelude.Trace.{Run, ◌>>=◌, ◌>>◌, pure, call, oops}
use yu.PageAlloc.{
  Event, get_free_pages, vmalloc, free_pages, vfree, say_page, say_word, say_vmalloc, say_free_both,
  is_null,
}

-- The variables, and the words of memory.
pub record State : Type 0 where
  pub p : ℕ
  pub vp : ℕ
  pub memory : ℕ → ℕ

-- `*(long*)p = v`: a null pointer faults.
unfoldable pub store : ℕ → ℕ → (ℕ → ℕ) → Run Event (ℕ → ℕ)
store a v memory = if a == 0 then oops else pure (λ b. if b == a then v else memory b)

-- With what `__get_free_pages` and `vmalloc` return.
unfoldable pub init_dummy : ℕ → ℕ → State → Run Event (State × ℤ)
unfolding store
init_dummy page area s = do
  call (get_free_pages 2 page)
  memory ← store page 0xBADBEAF s.memory
  call (say_page page)
  call (say_word page (memory page))
  call (vmalloc 8192 area)
  memory' ← store area 0xFAEBDAB memory
  call (say_vmalloc area)
  call (say_word area (memory' area))
  pure (record { p = page; vp = area; memory = memory' }, is_null page)

unfoldable pub exit_dummy : State → Run Event (Unit {0})
exit_dummy s = do call (say_free_both s.p s.vp); call (free_pages s.p 2); call (vfree s.vp)
