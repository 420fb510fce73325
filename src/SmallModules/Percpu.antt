-- ===== src/SmallModules/Percpu.antt =====
-- kmods/percpu/percpu.c: a module that prints variables that it has not set.
use yu.Prelude.{ℕ, zero, suc, ◌+◌}
use yu.Prelude.Int.{ℤ, pos}
use yu.Prelude.Trace.{Run, ◌>>◌, pure, call}

pub data Event : Type 0 where
  say_item : ℕ → ℤ → ℤ → Event
  say_exit : Event

-- What the stack holds where `a` and `c` lie.
pub record Stack : Type 0 where
  pub a : ℕ → ℤ
  pub c : ℤ

-- `for (i=0; i< 8; i++)`, with the rounds that are left.
init_loop : ℕ → ℕ → Stack → Run Event (Unit {0})
init_loop zero i s = pure tt
init_loop (suc left) i s = call (say_item i (s.a i) s.c) >> init_loop left (i + 1) s

unfoldable pub init_test : Stack → Run Event ℤ
unfolding init_loop
init_test s = init_loop 8 0 s >> pure (pos 0)

pub exit_test : Run Event (Unit {0})
exit_test = call say_exit
