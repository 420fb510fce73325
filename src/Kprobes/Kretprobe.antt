-- ===== src/Kprobes/Kretprobe.antt =====
-- kmods/kprobes/kretprobe_example.c: reports what a function returns and the time that it takes.
pub mod Timing
pub mod Pool
use yu.Prelude.{ℕ, List, ◌==◌, if◌then◌else◌, ◌∷◌, []}
use yu.Prelude.Int.{ℤ, pos, negsuc, is_negative}
use yu.Prelude.Trace.{Run, ◌>>=◌, ◌>>◌, pure, call, ask, run, after, and_then, done, fault}
use yu.KernelTime.{KernelTime}
use yu.Kprobes.{
  Event, Answers, register, unregister, say_failed, say_planted_at, say_unregistered, say_missed,
  ktime_get, say_returned,
}

-- `my_kretprobe`: the core counts in `nmissed` the calls that it could not probe.
pub record Kretprobe : Type 0 where
  pub symbol_name : List ℕ
  pub addr : ℕ
  pub nmissed : ℕ
  pub maxactive : ℕ

abbrev pub my_kretprobe : Kretprobe
my_kretprobe = record { symbol_name = []; addr = 0; nmissed = 0; maxactive = 20 }

unfoldable pub kretprobe_init : Answers → List ℕ → Kretprobe → Run Event (Kretprobe × ℤ)
kretprobe_init a func_name my =
    let planted = record my { symbol_name = func_name; addr = a.addr } in
    do
      call (register a.ret)
      if is_negative a.ret
          then call (say_failed a.ret) >> pure (planted, negsuc 0)
          else (call (say_planted_at planted.symbol_name planted.addr) >> pure (planted, pos 0))

unfoldable pub kretprobe_exit : Kretprobe → Run Event (Unit {0})
kretprobe_exit my = do
  call unregister
  call (say_unregistered my.addr)
  call (say_missed my.nmissed my.symbol_name)

module _ (time : KernelTime) where
  open time use {Ktime, ktime_sub, ktime_to_ns}

  -- The private data of an instance.
  pub record MyData : Type 0 where
    pub entry_stamp : Ktime

  -- `mm` is that of the current task, null for a kernel thread, and `now` what `ktime_get` returns.
  pub entry_handler : ℕ → Ktime → MyData → Run Event (MyData × ℤ)
  entry_handler mm now data_of =
      if mm == 0
      then pure (data_of, pos 1)
      else (call ktime_get >> pure (record data_of { entry_stamp = now }, pos 0))

  pub ret_handler : List ℕ → ℕ → Ktime → MyData → Run Event ℤ
  ret_handler func_name retval now data_of = do
    call ktime_get
    call (say_returned func_name retval (ktime_to_ns (ktime_sub now data_of.entry_stamp)))
    pure (pos 0)
