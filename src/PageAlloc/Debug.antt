-- ===== src/PageAlloc/Debug.antt =====
-- kmods/deubg_pagealloc/debug_pa.c: the variable `p` is the argument and the result.
use yu.Prelude.{ℕ}
use yu.Prelude.Int.{ℤ}
use yu.Prelude.Trace.{Run, ◌>>◌, pure, call}
use yu.PageAlloc.{Event, get_free_pages, free_pages, say_page, say_free_page, is_null}

unfoldable pub init_dummy : ℕ → Run Event (ℕ × ℤ)
init_dummy page = do call (get_free_pages 2 page); call (say_page page); pure (page, is_null page)

unfoldable pub exit_dummy : ℕ → Run Event (Unit {0})
exit_dummy p = call (free_pages p 2) >> call (say_free_page p)
