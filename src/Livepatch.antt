-- ===== src/Livepatch.antt =====
-- kmods/livepatch/lpm.c: a live patch that replaces the function behind /proc/cmdline.
pub mod Init
pub mod Show
pub mod Tables
pub mod Readers
mod Tests
use yu.Prelude.{
  ℕ, zero, suc, ◌+◌, ◌*◌, ◌%◌, ◌^◌, Bool, true, false, not, ◌&&◌, Option, none, some, ltb,
  if◌then◌else◌,
}
use yu.Prelude.Int.{ℤ, pos, is_zero}
use yu.Prelude.Trace.{Run, ◌>>=◌, ◌>>◌, pure, call, ask, oops, run, after, and_then, done, fault}

-- `patch.immediate`, and the two global pointers.
pub record State : Type 0 where
  pub immediate : Bool
  pub ptr : ℕ
  pub shadow : ℕ

-- What the live patching core answers; it is asked to unregister the patch where that could not be
-- enabled, and when the module is unloaded.
pub record Answers : Type 0 where
  pub have_reliable_stack : Bool
  pub register_patch : ℤ
  pub enable_patch : ℤ
  pub unregister_patch : ℤ
  pub unregister_at_exit : ℤ

-- The calls of the core are recorded with what they return.
pub data Event : Type 0 where
  klp_have_reliable_stack : Event
  say_not_supported : Event
  klp_register_patch : ℤ → Event
  klp_enable_patch : ℤ → Event
  klp_unregister_patch : ℤ → Event
  kmalloc : ℕ → Event
  seq_printf_patched : Event
  say_kmalloc : ℕ → Event
  klp_shadow_alloc : ℕ → ℕ → ℕ → Event
  say_shadow : ℕ → Event
  klp_shadow_free : ℕ → ℕ → Event
  kfree : ℕ → Event
  say_newline : Event

-- The call inside `WARN_ON`.
unregister : ℤ → Run Event (Unit {0})
unregister returns = call (klp_unregister_patch returns)

register_and_enable : Answers → State → Run Event (State × ℤ)
unfolding unregister
register_and_enable a s = do
  ret ← ask (klp_register_patch a.register_patch) a.register_patch
  if is_zero ret
      then (do
        ret' ← ask (klp_enable_patch a.enable_patch) a.enable_patch
        if is_zero ret'
            then pure (s, pos 0)
            else (do unregister a.unregister_patch; pure (s, ret')))
      else pure (s, ret)

pub livepatch_init : Answers → State → Run Event (State × ℤ)
unfolding register_and_enable
livepatch_init a s = do
  reliable ← ask klp_have_reliable_stack a.have_reliable_stack
  if not reliable && not s.immediate
      then (do call say_not_supported; register_and_enable a (record s { immediate = true }))
      else register_and_enable a s

pub livepatch_exit : Answers → Run Event (Unit {0})
unfolding unregister
livepatch_exit a = unregister a.unregister_at_exit

-- `while ((tmp = ptr++) < eptr)`, over pointers to `long`: the last value of `ptr`; `none` if the
-- fuel runs out.
pub advance : ℕ → ℕ → ℕ → Option ℕ
advance zero eptr ptr = none
advance (suc fuel) eptr ptr =
    let rest = advance fuel eptr ((ptr + 8) % 2 ^ 64) in
    if ltb ptr eptr then rest else some ((ptr + 8) % 2 ^ 64)

-- The loop ends after 41 tests at most.
abbrev loop_fuel : ℕ
loop_fuel = 42

-- `livepatch_cmdline_proc_show`, with the addresses that `kmalloc` and `klp_shadow_alloc` return.
-- What the last two calls are given is the value of `ptr` after the loop.
pub livepatch_cmdline_proc_show : ℕ → ℕ → State → Run Event (State × ℤ)
unfolding advance
livepatch_cmdline_proc_show memory shadow s = do
  call (kmalloc 16)
  call seq_printf_patched
  call (say_kmalloc memory)
  call (klp_shadow_alloc memory 0xccccc 8)
  call (say_shadow shadow)
  elim (advance loop_fuel ((memory + 8 * 40) % 2 ^ 64) memory) [
    | none ↦ oops
    | some ptr ↦ do
      call (klp_shadow_free ptr 0xccccc)
      call (kfree ptr)
      call say_newline
      pure (record s { ptr = ptr; shadow = shadow }, pos 0)
  ]
