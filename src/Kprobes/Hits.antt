-- ===== src/Kprobes/Hits.antt =====
-- kprobe_example.c from its loading to its unloading, with the passes of the probed instruction.
pub mod Shown
use mathlib.Core.Path.{subst}
use yu.Prelude.Calls.{collect, collect-append}
use yu.Prelude.{
  ℕ, ◌≡◌, refl, sym, ap, ap₂, ◌∙◌, Bool, true, false, List, [], ◌∷◌, ◌++◌, if◌then◌else◌,
  append-nil, append_assoc, arith,
}
use yu.Prelude.Int.{ℤ, pos, negsuc, is_negative}
use yu.Prelude.Trace.{Run, ◌>>=◌, ◌>>◌, pure, call, done}
use yu.Kprobes.{
  Event, Answers, Arch, x86, ppc, mips, tilegx, arm64, say_pre, say_post, say_fault, dump_stack,
  unregister, say_unregistered,
}
use yu.Kprobes.Kprobe.{
  Config, PtRegs, Kprobe, kprobe_init, kprobe_exit, handler_pre, handler_post, handler_fault, ifdef,
}
use yu.Kprobes.Install.{held, planted, planted_by, unplanted, unplanted_by, option}

-- A call of a handler by the core: before the instruction, behind it, and at a fault in between, with
-- the number of the trap. The handlers of different processors come in any order, each whole.
pub data Hit : Type 0 where
  before behind : PtRegs → Hit
  trap : ℤ → Hit

pub hit : Config → Kprobe → Hit → Run Event (Unit {0})
unfolding handler_pre handler_post handler_fault
hit c p (before regs) = do ret ← handler_pre c p regs; pure tt
hit c p (behind regs) = handler_post c p regs
hit c p (trap number) = do ret ← handler_fault p number; pure tt

pub hit_all : Config → Kprobe → List Hit → Run Event (Unit {0})
unfolding hit
hit_all c p [] = pure tt
hit_all c p (h ∷ hs) = hit c p h >> hit_all c p hs

-- The module is loaded, hit and unloaded; a module that returns a negative number is refused.
pub hit_and_unload : Config → List Hit → Kprobe × ℤ → Run Event (Unit {0})
unfolding hit_all kprobe_exit
hit_and_unload c hs (p, ret) = if is_negative ret then pure tt else hit_all c p hs >> kprobe_exit p

pub life : Config → Answers → Kprobe → List Hit → Run Event (Unit {0})
unfolding kprobe_init hit_and_unload
life c a kp hs = kprobe_init a kp >>= hit_and_unload c hs

-- What the handlers show.
abbrev pub shown_by : Event → List Event
shown_by (say_pre arch name p x y) = say_pre arch name p x y ∷ []
shown_by (say_post arch name p x) = say_post arch name p x ∷ []
shown_by (say_fault p number) = say_fault p number ∷ []
shown_by dump_stack = dump_stack ∷ []
shown_by _ = []

abbrev pub shown : List Event → List Event
shown = collect shown_by

-- The register that points to the instruction, and the one with the state of the processor.
abbrev pub instruction : Arch → PtRegs → ℕ
instruction x86 regs = regs.ip
instruction ppc regs = regs.nip
instruction mips regs = regs.cp0_epc
instruction tilegx regs = regs.pc
instruction arm64 regs = regs.pc

abbrev pub status : Arch → PtRegs → ℕ
status x86 regs = regs.flags
status ppc regs = regs.msr
status mips regs = regs.cp0_status
status tilegx regs = regs.ex1
status arm64 regs = regs.pstate

abbrev pub archs : List Arch
archs = x86 ∷ ppc ∷ mips ∷ tilegx ∷ arm64 ∷ []

-- The lines of the architectures whose options are set, in front of the rest.
abbrev pub lines : Config → (Arch → Event) → List Arch → List Event → List Event
lines c f [] rest = rest
lines c f (arch ∷ more) rest = (if option arch c then f arch ∷ [] else []) ++ lines c f more rest

-- What is expected to be shown of a probe with a name and an address.
abbrev pub expected : Config → List ℕ → ℕ → List Hit → List Event
expected c name p [] = []
expected c name p (before regs ∷ hs) =
    lines c (λ arch. say_pre arch name p (instruction arch regs) (status arch regs)) archs
      (dump_stack ∷ [])
    ++ expected c name p hs
expected c name p (behind regs ∷ hs) =
    lines c (λ arch. say_post arch name p (status arch regs)) archs [] ++ expected c name p hs
expected c name p (trap number ∷ hs) = say_fault p number ∷ expected c name p hs
