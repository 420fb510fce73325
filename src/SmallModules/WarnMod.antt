-- ===== src/SmallModules/WarnMod.antt =====
-- kmods/warn_mod/warn_mod.c: a module that greets with its argument, and warns.
use yu.Prelude.{if◌then◌else◌}
use yu.Prelude.Int.{ℤ, pos, is_zero}
use yu.Prelude.Trace.{Run, ◌>>◌, pure, call}

pub data Event : Type 0 where
  say_loaded say_unloading warn : Event
  say_dummy_arg : ℤ → Event

dummy_greetings : ℤ → Run Event (Unit {0})
dummy_greetings dummy_arg =
    call say_loaded >> (if is_zero dummy_arg then pure tt else call (say_dummy_arg dummy_arg))

unfoldable pub init_dummy : ℤ → Run Event ℤ
unfolding dummy_greetings
init_dummy dummy_arg = do dummy_greetings dummy_arg; call warn; pure (pos 0)

pub cleanup_dummy : Run Event (Unit {0})
cleanup_dummy = call say_unloading
