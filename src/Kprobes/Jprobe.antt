-- ===== src/Kprobes/Jprobe.antt =====
-- kmods/kprobes/jprobe_example.c: reports the arguments of each call of a function.
use yu.Prelude.{ℕ, if◌then◌else◌}
use yu.Prelude.Int.{ℤ, pos, negsuc, is_negative}
use yu.Prelude.Trace.{Run, ◌>>◌, pure, call}
use yu.Kprobes.{
  Event, Answers, register, unregister, say_failed, say_planted_handler, say_unregistered,
  say_arguments, jprobe_return,
}

-- `my_jprobe`: its `entry` is the address of `j_do_fork`.
pub record Jprobe : Type 0 where
  pub entry : ℕ
  pub addr : ℕ

-- The arguments that are not reported are left out. (`jprobe_return` does not come back.)
pub j_do_fork : ℕ → ℕ → ℕ → Run Event ℤ
j_do_fork clone_flags stack_start stack_size = do
  call (say_arguments clone_flags stack_start stack_size)
  call jprobe_return
  pure (pos 0)

unfoldable pub jprobe_init : Answers → Jprobe → Run Event (Jprobe × ℤ)
jprobe_init a my =
    let planted = record my { addr = a.addr } in
    do
      call (register a.ret)
      if is_negative a.ret
          then call (say_failed a.ret) >> pure (planted, negsuc 0)
          else (call (say_planted_handler planted.addr planted.entry) >> pure (planted, pos 0))

unfoldable pub jprobe_exit : Jprobe → Run Event (Unit {0})
jprobe_exit my = call unregister >> call (say_unregistered my.addr)
