-- ===== src/Kprobes.antt =====
-- kmods/kprobes: three modules that report the calls of a function of the kernel, by a return probe,
-- a probe and a jump probe. Here are the calls that they make of the kernel.
pub mod Kretprobe
pub mod Kprobe
pub mod Jprobe
pub mod Install
pub mod Hits
mod Tests
use yu.Prelude.{ℕ, List}
use yu.Prelude.Int.{ℤ}

-- The registers that a line of `handler_pre` shows, by the architecture of the kernel.
pub data Arch : Type 0 where
  x86 ppc mips tilegx arm64 : Arch

pub data Event : Type 0 where
  -- A call that registers a probe, with what it returns, and one that unregisters it.
  register : ℤ → Event
  unregister : Event
  say_failed : ℤ → Event
  say_planted : ℕ → Event
  say_planted_at : List ℕ → ℕ → Event
  say_planted_handler : ℕ → ℕ → Event
  say_unregistered : ℕ → Event
  say_missed : ℕ → List ℕ → Event
  ktime_get : Event
  -- The name of the function, the value that it returned, and the time that it took.
  say_returned : List ℕ → ℕ → ℤ → Event
  say_pre : Arch → List ℕ → ℕ → ℕ → ℕ → Event
  say_post : Arch → List ℕ → ℕ → ℕ → Event
  say_fault : ℕ → ℤ → Event
  dump_stack : Event
  say_arguments : ℕ → ℕ → ℕ → Event
  jprobe_return : Event

-- What the call that registers a probe returns, and the address that it finds for the symbol.
pub record Answers : Type 0 where
  pub ret : ℤ
  pub addr : ℕ
