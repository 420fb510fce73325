-- ===== src/Kprobes/Tests.antt =====
-- Runs of the modules of kmods/kprobes.
use yu.Prelude.{arith, ◌≡◌, refl, true, false, List, [], ◌∷◌}
use yu.Prelude.Int.{pos, negsuc}
use yu.Prelude.Trace.{run, done}
use yu.KernelTime.{plain_time}
use yu.Kprobes.{
  Answers, x86, say_pre, say_post, dump_stack, unregister, say_unregistered, say_missed,
}
use yu.Kprobes.Kretprobe.Pool
use yu.Kprobes.Kretprobe.{Kretprobe, MyData, my_kretprobe, kretprobe_init, kretprobe_exit}
use yu.Kprobes.Kretprobe.Timing.{
  Pass, enter, leave, Instances, after_passes, expected, after_passes-expected,
}
use yu.Kprobes.Kprobe.{Config, PtRegs, Kprobe, kprobe_init, kprobe_exit}
use yu.Kprobes.Jprobe.{Jprobe, jprobe_init, jprobe_exit}
use yu.Kprobes.Install.{held, planted, unplanted, Installs, inits_Installs}
use yu.Kprobes.Hits.{before, behind, life, shown}
use yu.Kprobes.Hits.Shown.{life-expected}

abbrev idle : Instances plain_time
idle = record { waiting = λ i. false; data_of = λ i. record { entry_stamp = pos 0 } }

-- Two calls of user processes that overlap, and one of a kernel thread; newest first.
abbrev passes : List (Pass plain_time)
passes =
    leave 0 7 (pos 190)
    ∷ leave 2 5 (pos 180)
    ∷ leave 1 6 (pos 150)
    ∷ enter 2 0 (pos 130)
    ∷ enter 1 9 (pos 120)
    ∷ enter 0 8 (pos 100)
    ∷ []

expected-passes :
    expected plain_time passes
    ≡ record { retval = 7; delta = pos 90 } ∷ record { retval = 6; delta = pos 30 } ∷ []
expected-passes = refl

after_passes-expected_example :
    (after_passes plain_time [] idle passes).1 ≡ expected plain_time passes
after_passes-expected_example = after_passes-expected plain_time [] idle passes (λ j. refl)

-- The same calls, for the core that has twenty instances.
abbrev calls : List (Pool.Call plain_time)
calls =
    Pool.leave 0 7 (pos 190)
    ∷ Pool.leave 2 5 (pos 180)
    ∷ Pool.leave 1 6 (pos 150)
    ∷ Pool.enter 2 0 (pos 130)
    ∷ Pool.enter 1 9 (pos 120)
    ∷ Pool.enter 0 8 (pos 100)
    ∷ []

abbrev stale : MyData plain_time
stale = record { entry_stamp = pos 0 }

kretprobe_init-served_example :
    (my : Kretprobe) × ((kretprobe_init (record { ret = pos 0; addr = 32 }) [] my_kretprobe).outcome
      ≡ done (my, pos 0))
    × ((Pool.after_calls plain_time my stale calls).1 ≡ Pool.due plain_time calls)
    × (kretprobe_exit
          (record my { nmissed = (Pool.after_calls plain_time my stale calls).0.nmissed })
        ≡ run (unregister ∷ say_unregistered 32 ∷ say_missed 0 [] ∷ []) (done tt))
kretprobe_init-served_example =
    Pool.kretprobe_init-served plain_time (record { ret = pos 0; addr = 32 }) [] stale calls refl
      (omega arith, (omega arith, (omega arith, tt)))

abbrev probe : Kprobe
probe = record { symbol_name = []; addr = 0; handled = false }

abbrev jump_probe : Jprobe
jump_probe = record { entry = 64; addr = 0 }

inits_Installs_example :
    let a : Answers = record { ret = negsuc 1; addr = 32 } in
    Installs a (kretprobe_init a [] my_kretprobe) kretprobe_exit
    × Installs a (kprobe_init a probe) kprobe_exit
    × Installs a (jprobe_init a jump_probe) jprobe_exit
inits_Installs_example = inits_Installs (negsuc 1) 32 [] my_kretprobe probe jump_probe

abbrev on_x86 : Config
on_x86 = record {
  config_x86 = true;
  config_ppc = false;
  config_mips = false;
  config_tilegx = false;
  config_arm64 = false;
}

abbrev regs : PtRegs
regs = record {
  ip = 64;
  flags = 2;
  nip = 0;
  msr = 0;
  cp0_epc = 0;
  cp0_status = 0;
  ex1 = 0;
  pc = 0;
  pstate = 0;
}

life-expected_example :
    let hs = before regs ∷ behind regs ∷ [] in
    let r = life on_x86 (record { ret = pos 0; addr = 32 }) probe hs in
    (r.outcome ≡ done tt)
    × (shown r.calls
        ≡ say_pre x86 probe.symbol_name 32 64 2
          ∷ dump_stack
          ∷ say_post x86 probe.symbol_name 32 2
          ∷ [])
    × (planted r.calls ≡ 32 ∷ [])
    × (unplanted r.calls ≡ 32 ∷ [])
    × (held false r.calls ≡ false)
life-expected_example = life-expected on_x86 (pos 0) 32 probe (before regs ∷ behind regs ∷ [])
