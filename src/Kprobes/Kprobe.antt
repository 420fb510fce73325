-- ===== src/Kprobes/Kprobe.antt =====
-- kmods/kprobes/kprobe_example.c: reports each pass of a probed instruction, with its stack.
use yu.Prelude.{ℕ, List}
use yu.Prelude.Int.{ℤ, pos, is_negative}
use yu.Prelude.{Bool, true, if◌then◌else◌}
use yu.Prelude.Trace.{Run, ◌>>◌, pure, call}
use yu.Kprobes.{
  Event, Answers, x86, ppc, mips, tilegx, arm64, register, unregister, say_failed, say_planted,
  say_unregistered, say_pre, say_post, say_fault, dump_stack,
}

-- Which of the five options of the architectures are set.
pub record Config : Type 0 where
  pub config_x86 : Bool
  pub config_ppc : Bool
  pub config_mips : Bool
  pub config_tilegx : Bool
  pub config_arm64 : Bool

-- The registers that the architectures' `struct pt_regs` have under these names.
pub record PtRegs : Type 0 where
  pub ip : ℕ
  pub flags : ℕ
  pub nip : ℕ
  pub msr : ℕ
  pub cp0_epc : ℕ
  pub cp0_status : ℕ
  pub ex1 : ℕ
  pub pc : ℕ
  pub pstate : ℕ

-- `symbol_name` and `addr` of a probe, and whether its handlers are set.
pub record Kprobe : Type 0 where
  pub symbol_name : List ℕ
  pub addr : ℕ
  pub handled : Bool

-- The lines between `#ifdef` and `#endif`.
abbrev pub ifdef : Bool → Event → Run Event (Unit {0})
ifdef b e = if b then call e else pure tt

unfoldable pub handler_pre : Config → Kprobe → PtRegs → Run Event ℤ
handler_pre c p regs = do
  ifdef c.config_x86 (say_pre x86 p.symbol_name p.addr regs.ip regs.flags)
  ifdef c.config_ppc (say_pre ppc p.symbol_name p.addr regs.nip regs.msr)
  ifdef c.config_mips (say_pre mips p.symbol_name p.addr regs.cp0_epc regs.cp0_status)
  ifdef c.config_tilegx (say_pre tilegx p.symbol_name p.addr regs.pc regs.ex1)
  ifdef c.config_arm64 (say_pre arm64 p.symbol_name p.addr regs.pc regs.pstate)
  call dump_stack
  pure (pos 0)

unfoldable pub handler_post : Config → Kprobe → PtRegs → Run Event (Unit {0})
handler_post c p regs = do
  ifdef c.config_x86 (say_post x86 p.symbol_name p.addr regs.flags)
  ifdef c.config_ppc (say_post ppc p.symbol_name p.addr regs.msr)
  ifdef c.config_mips (say_post mips p.symbol_name p.addr regs.cp0_status)
  ifdef c.config_tilegx (say_post tilegx p.symbol_name p.addr regs.ex1)
  ifdef c.config_arm64 (say_post arm64 p.symbol_name p.addr regs.pstate)

unfoldable pub handler_fault : Kprobe → ℤ → Run Event ℤ
handler_fault p trapnr = call (say_fault p.addr trapnr) >> pure (pos 0)

unfoldable pub kprobe_init : Answers → Kprobe → Run Event (Kprobe × ℤ)
kprobe_init a kp =
    let planted = record kp { handled = true; addr = a.addr } in
    do
      call (register a.ret)
      if is_negative a.ret
          then call (say_failed a.ret) >> pure (planted, a.ret)
          else (call (say_planted planted.addr) >> pure (planted, pos 0))

unfoldable pub kprobe_exit : Kprobe → Run Event (Unit {0})
kprobe_exit kp = call unregister >> call (say_unregistered kp.addr)
