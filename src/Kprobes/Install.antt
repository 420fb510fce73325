-- ===== src/Kprobes/Install.antt =====
-- When the three modules of kmods/kprobes have their probe in place, and what the probe handlers show.
use yu.Prelude.Calls.{collect, count}
use yu.Prelude.{ℕ, ◌≡◌, refl, Bool, true, false, not, List, [], ◌∷◌, if◌then◌else◌, arith}
use yu.Prelude.Int.{ℤ, pos, negsuc, is_negative, is_zero}
use yu.Prelude.Trace.{Run, done}
use yu.Kprobes.{
  Event, Answers, Arch, x86, ppc, mips, tilegx, arm64, register, unregister, say_planted,
  say_planted_at, say_planted_handler, say_unregistered, say_pre, say_post, dump_stack,
}
use yu.Kprobes.Kretprobe.{Kretprobe, kretprobe_init, kretprobe_exit}
use yu.Kprobes.Kprobe.{Config, PtRegs, Kprobe, kprobe_init, kprobe_exit, handler_pre, handler_post}
use yu.Kprobes.Jprobe.{Jprobe, jprobe_init, jprobe_exit}

-- Whether the core holds the probe after the calls: a call that registers it fails with a negative
-- number.
abbrev pub held : Bool → List Event → Bool
held b [] = b
held b (register r ∷ es) = held (not (is_negative r)) es
held b (unregister ∷ es) = held false es
held b (_ ∷ es) = held b es

-- The addresses that the calls report the probe at, and report as given up.
abbrev pub planted_by : Event → List ℕ
planted_by (say_planted p) = p ∷ []
planted_by (say_planted_at name p) = p ∷ []
planted_by (say_planted_handler p entry) = p ∷ []
planted_by _ = []

abbrev pub planted : List Event → List ℕ
planted = collect planted_by

abbrev pub unplanted_by : Event → List ℕ
unplanted_by (say_unregistered p) = p ∷ []
unplanted_by _ = []

abbrev pub unplanted : List Event → List ℕ
unplanted = collect unplanted_by

-- A module that is loaded with `initial` and then, if that succeeds, unloaded with `final`. It is
-- loaded, with 0, exactly if its probe is held, and reports the address of the probe just then; and
-- when it is unloaded no probe is held, and the same address is reported.
pub record Installs {P : Type 0} (a : Answers) (initial : Run Event (P × ℤ))
    (final : P → Run Event (Unit {0})) : Type 0 where
  pub probe : P
  pub ret : ℤ
  pub ended : initial.outcome ≡ done (probe, ret)
  pub loads : is_zero ret ≡ held false initial.calls
  pub reports : planted initial.calls ≡ (if is_zero ret then a.addr ∷ [] else [])
  pub unloads : (final probe).outcome ≡ done tt
  pub releases : (b : Bool) → held b (final probe).calls ≡ false
  pub reports_release : unplanted (final probe).calls ≡ a.addr ∷ []

kretprobe_Installs :
    (r : ℤ) (p : ℕ) (name : List ℕ) (my : Kretprobe)
    → Installs
        (record { ret = r; addr = p })
        (kretprobe_init (record { ret = r; addr = p }) name my)
        kretprobe_exit
unfolding kretprobe_init kretprobe_exit
kretprobe_Installs (pos n) p name my = record {
  probe = record my { symbol_name = name; addr = p };
  ret = pos 0;
  ended = refl;
  loads = refl;
  reports = refl;
  unloads = refl;
  releases = λ b. refl;
  reports_release = refl;
}
kretprobe_Installs (negsuc n) p name my = record {
  probe = record my { symbol_name = name; addr = p };
  ret = negsuc 0;
  ended = refl;
  loads = refl;
  reports = refl;
  unloads = refl;
  releases = λ b. refl;
  reports_release = refl;
}

kprobe_Installs :
    (r : ℤ) (p : ℕ) (kp : Kprobe)
    → Installs
        (record { ret = r; addr = p })
        (kprobe_init (record { ret = r; addr = p }) kp)
        kprobe_exit
unfolding kprobe_init kprobe_exit
kprobe_Installs (pos n) p kp = record {
  probe = record kp { addr = p; handled = true };
  ret = pos 0;
  ended = refl;
  loads = refl;
  reports = refl;
  unloads = refl;
  releases = λ b. refl;
  reports_release = refl;
}
kprobe_Installs (negsuc n) p kp = record {
  probe = record kp { addr = p; handled = true };
  ret = negsuc n;
  ended = refl;
  loads = refl;
  reports = refl;
  unloads = refl;
  releases = λ b. refl;
  reports_release = refl;
}

jprobe_Installs :
    (r : ℤ) (p : ℕ) (my : Jprobe)
    → Installs
        (record { ret = r; addr = p })
        (jprobe_init (record { ret = r; addr = p }) my)
        jprobe_exit
unfolding jprobe_init jprobe_exit
jprobe_Installs (pos n) p my = record {
  probe = record my { addr = p };
  ret = pos 0;
  ended = refl;
  loads = refl;
  reports = refl;
  unloads = refl;
  releases = λ b. refl;
  reports_release = refl;
}
jprobe_Installs (negsuc n) p my = record {
  probe = record my { addr = p };
  ret = negsuc 0;
  ended = refl;
  loads = refl;
  reports = refl;
  unloads = refl;
  releases = λ b. refl;
  reports_release = refl;
}

-- Each of the three modules, whatever the core answers: it is loaded, with 0, exactly if its probe is
-- held, and reports the address of the probe just then; and when it is unloaded after that no probe
-- is held, and the same address is reported.
pub inits_Installs :
    (r : ℤ) (p : ℕ) (name : List ℕ) (ret_probe : Kretprobe) (probe : Kprobe) (jump_probe : Jprobe)
    → let a : Answers = record { ret = r; addr = p } in
      Installs a (kretprobe_init a name ret_probe) kretprobe_exit
      × Installs a (kprobe_init a probe) kprobe_exit
      × Installs a (jprobe_init a jump_probe) jprobe_exit
inits_Installs r p name ret_probe probe jump_probe = (
  kretprobe_Installs r p name ret_probe,
  kprobe_Installs r p probe,
  jprobe_Installs r p jump_probe,
)

-- The architectures of the lines before and behind the instruction, with the address that they show,
-- and how often the stack is shown.
abbrev pub pre_lines_by : Event → List (Arch × ℕ)
pre_lines_by (say_pre arch name p x y) = (arch, p) ∷ []
pre_lines_by _ = []

abbrev pub pre_lines : List Event → List (Arch × ℕ)
pre_lines = collect pre_lines_by

abbrev pub post_lines_by : Event → List (Arch × ℕ)
post_lines_by (say_post arch name p x) = (arch, p) ∷ []
post_lines_by _ = []

abbrev pub post_lines : List Event → List (Arch × ℕ)
post_lines = collect post_lines_by

abbrev pub is_dump : Event → Bool
is_dump dump_stack = true
is_dump _ = false

abbrev pub dumps : List Event → ℕ
dumps = count is_dump

-- Which option an architecture has.
abbrev pub option : Arch → Config → Bool
option x86 c = c.config_x86
option ppc c = c.config_ppc
option mips c = c.config_mips
option tilegx c = c.config_tilegx
option arm64 c = c.config_arm64

abbrev pub chosen : ℕ → Config → List Arch → List (Arch × ℕ)
chosen p c [] = []
chosen p c (arch ∷ rest) = if option arch c then (arch, p) ∷ chosen p c rest else chosen p c rest

-- `handler_pre` and `handler_post` end, and show one line with the address of the probe for each
-- architecture whose option is set, and `handler_pre` shows the stack once.
pub handlers-chosen :
    (c : Config) (kp : Kprobe) (regs : PtRegs)
    → let archs = x86 ∷ ppc ∷ mips ∷ tilegx ∷ arm64 ∷ [] in
      ((handler_pre c kp regs).outcome ≡ done (pos 0))
      × ((handler_post c kp regs).outcome ≡ done tt)
      × (pre_lines (handler_pre c kp regs).calls ≡ chosen kp.addr c archs)
      × (post_lines (handler_post c kp regs).calls ≡ chosen kp.addr c archs)
      × (dumps (handler_pre c kp regs).calls ≡ 1)
unfolding handler_pre handler_post
handlers-chosen c kp regs = (ground arith, ground arith, ground arith, ground arith, ground arith)
