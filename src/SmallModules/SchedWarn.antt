-- ===== src/SmallModules/SchedWarn.antt =====
-- kmods/sched_warn/warn_mod.c: a module that raises the count of the places that forbid preemption,
-- and calls the kernel's report of a task that is scheduled in such a place by its address.
use yu.Prelude.{
  ℕ, ◌+◌, ◌%◌, ◌^◌, ◌≡◌, refl, Bool, true, Option, none, some, if◌then◌else◌, inl, inr, arith,
  Bool-cases,
}
use yu.Prelude.Int.{ℤ, pos}
use yu.Prelude.Trace.{Run, ◌>>=◌, ◌>>◌, pure, call, ask, oops, done}

pub data Event : Type 0 where
  seq_read filp_open say_loaded : Event
  call_at : ℕ → Event
  say_unloading : Event

-- `t_sched_debug_func`, and the count of the current thread, a 32-bit number.
pub record State : Type 0 where
  pub t_sched_debug_func : ℕ
  pub preempt_count : ℕ

-- What the kernel does: whether it counts (CONFIG_PREEMPT_COUNT), what the two calls on a file that
-- was never opened, with null pointers, return (`none` where they fault), and whether there is a
-- function at an address.
pub record Kernel : Type 0 where
  pub counts : Bool
  pub seq_read_null : Option ℤ
  pub filp_open_null : Option ℕ
  pub is_function : ℕ → Bool

abbrev increment : State → State
increment s = record s { preempt_count = (s.preempt_count + 1) % 2 ^ 32 }

unfoldable pub preempt_disable : Kernel → State → State
preempt_disable k s = if k.counts then increment s else s

answer : {A : Type 0} → Event → Option A → Run Event A
answer e none = oops
answer e (some r) = ask e r

pub init_stall : Kernel → State → Run Event (State × ℤ)
unfolding answer preempt_disable
init_stall k s = do
  n ← answer seq_read k.seq_read_null
  f ← answer filp_open k.filp_open_null
  let raised = record (increment (increment (preempt_disable k (preempt_disable k s)))) {
    t_sched_debug_func = 0xffff_ffff_8e09_a0d7;
  }
  call say_loaded
  if k.is_function raised.t_sched_debug_func
      then (call (call_at raised.t_sched_debug_func) >> pure (raised, pos 0))
      else oops

pub cleanup_stall : State → Run Event State
cleanup_stall s = call say_unloading >> pure s

count_lem :
    (k : Kernel) (s : State)
    → (increment (increment (preempt_disable k (preempt_disable k s)))).preempt_count
      ≡ (s.preempt_count + (if k.counts then 4 else 2)) % 2 ^ 32
unfolding preempt_disable
count_lem k s = elim (Bool-cases k.counts) [
  | inl e ↦ rw e (omega arith)
  | inr e ↦ rw e (omega arith)
]

-- The kernel lets the module be loaded: the two calls on files return, and there is a function at
-- the address.
pub record Loads (k : Kernel) : Type 0 where
  pub seq_read_returns : (n : ℤ) × (k.seq_read_null ≡ some n)
  pub filp_open_returns : (f : ℕ) × (k.filp_open_null ≡ some f)
  pub at_address : k.is_function 0xffff_ffff_8e09_a0d7 ≡ true

-- Then it is loaded, with 0, and has raised the count by 4, or by 2 where the kernel does not count;
-- its unloading leaves that as it is.
pub init_stall-cleanup_stall :
    (k : Kernel) (s : State)
    → Loads k
    → (s' : State) × ((init_stall k s).outcome ≡ done (s', pos 0))
      × (s'.preempt_count ≡ (s.preempt_count + (if k.counts then 4 else 2)) % 2 ^ 32)
      × ((cleanup_stall s').outcome ≡ done s')
unfolding init_stall cleanup_stall
init_stall-cleanup_stall k s h =
    let (n, read) = h.seq_read_returns in
    let (f, opened) = h.filp_open_returns in
    (
      record {
        t_sched_debug_func = 0xffff_ffff_8e09_a0d7;
        preempt_count =
            (increment (increment (preempt_disable k (preempt_disable k s)))).preempt_count;
      },
      rw (read, opened, h.at_address) refl,
      count_lem k s,
      refl,
    )
