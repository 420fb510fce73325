-- ===== src/Livepatch/Readers.antt =====
-- Two readers of /proc/cmdline in the patched function of lpm.c: `ptr` and `shadow` are shared.
pub mod Races
use yu.Prelude.{
  ℕ, ◌+◌, ◌*◌, ◌%◌, ◌^◌, ◌≡◌, Bool, true, false, List, [], ◌∷◌, ◌++◌, ltb, if◌then◌else◌,
}
use yu.Prelude.Trace.{Run, ◌>>=◌, ◌>>◌, pure, call, run, after, and_then, done, fault}
use yu.Livepatch.{
  State, Event, kmalloc, seq_printf_patched, say_kmalloc, klp_shadow_alloc, say_shadow,
  klp_shadow_free, kfree, say_newline,
}

-- Where a reader stands in `livepatch_cmdline_proc_show`, with its local `eptr` once that is set.
pub data Point : Type 0 where
  at_kmalloc at_eptr : Point
  at_print at_shadow_alloc at_shadow at_loop : ℕ → Point
  at_shadow_free at_kfree at_newline returned : Point

-- One access to the shared pointers, with what lies between it and the one before; the arguments are
-- what `kmalloc` and `klp_shadow_alloc` return. The increment of `ptr` in the test is one access.
pub reader_step : ℕ → ℕ → Point → State → Run Event (Point × State)
reader_step memory shadow at_kmalloc s = do
  call (kmalloc 16)
  pure (at_eptr, record s { ptr = memory })
reader_step memory shadow at_eptr s = pure (at_print ((s.ptr + 8 * 40) % 2 ^ 64), s)
reader_step memory shadow (at_print eptr) s = do
  call seq_printf_patched
  call (say_kmalloc s.ptr)
  pure (at_shadow_alloc eptr, s)
reader_step memory shadow (at_shadow_alloc eptr) s = do
  call (klp_shadow_alloc s.ptr 0xccccc 8)
  pure (at_shadow eptr, record s { shadow = shadow })
reader_step memory shadow (at_shadow eptr) s = do call (say_shadow s.shadow); pure (at_loop eptr, s)
reader_step memory shadow (at_loop eptr) s = pure (
  (if ltb s.ptr eptr then at_loop eptr else at_shadow_free),
  record s { ptr = (s.ptr + 8) % 2 ^ 64 },
)
reader_step memory shadow at_shadow_free s = do
  call (klp_shadow_free s.ptr 0xccccc)
  pure (at_kfree, s)
reader_step memory shadow at_kfree s = do call (kfree s.ptr); pure (at_newline, s)
reader_step memory shadow at_newline s = do call say_newline; pure (returned, s)
reader_step memory shadow returned s = pure (returned, s)

pub data Reader : Type 0 where
  first second : Reader

-- What the calls of each reader return.
pub record Addresses : Type 0 where
  pub memory : Reader → ℕ
  pub shadow : Reader → ℕ

pub record World : Type 0 where
  pub shared : State
  pub first_at : Point
  pub second_at : Point

abbrev pub world : State → Point → Point → World
world s p q = record { shared = s; first_at = p; second_at = q }

abbrev pub Trace : Type 0
Trace = List (Reader × Event)

abbrev pub tag : Reader → List Event → Trace
tag r [] = []
tag r (e ∷ es) = (r, e) ∷ tag r es

-- The calls of one reader.
abbrev pub by_first : Trace → List Event
by_first [] = []
by_first ((first, e) ∷ tr) = e ∷ by_first tr
by_first ((second, e) ∷ tr) = by_first tr

abbrev pub by_second : Trace → List Event
by_second [] = []
by_second ((first, e) ∷ tr) = by_second tr
by_second ((second, e) ∷ tr) = e ∷ by_second tr

-- The readers take turns in any order.
pub data Execution (a : Addresses) : World → Trace → World → Type 0 where
  finish : {w : World} → Execution a w [] w
  first_steps :
      {s s' : State} {p p' q : Point} {tr : Trace} {w : World}
      → (reader_step (a.memory first) (a.shadow first) p s).outcome ≡ done (p', s')
      → Execution a (world s' p' q) tr w
      → Execution a
          (world s p q)
          (tag first (reader_step (a.memory first) (a.shadow first) p s).calls ++ tr)
          w
  second_steps :
      {s s' : State} {p q q' : Point} {tr : Trace} {w : World}
      → (reader_step (a.memory second) (a.shadow second) q s).outcome ≡ done (q', s')
      → Execution a (world s' p q') tr w
      → Execution a
          (world s p q)
          (tag second (reader_step (a.memory second) (a.shadow second) q s).calls ++ tr)
          w
