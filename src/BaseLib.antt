-- ===== src/BaseLib.antt =====
-- kmods/base_lib/base_lib.c and the two modules that call what it exports,
-- kmods/base_lib/test_clobber.c and kmods/kinfo/kinfo.c.
pub mod Dump
mod Tests
use Prim.Native.String.{String}
use yu.Prelude.{ℕ, zero, suc, ◌+◌, ◌-◌, ◌%◌, ◌^◌, List, [], ◌∷◌, ltb, ◌==◌, if◌then◌else◌}
use yu.Prelude.Int.{ℤ, pos, negsuc, is_zero}
use yu.Prelude.Trace.{Run, ◌>>=◌, ◌>>◌, pure, call, run, after, and_then, done, fault}

-- What a line says of a process: `comm`, `pid` and the number of its threads.
pub record Task : Type 0 where
  pub comm : String
  pub pid : ℕ
  pub threads : ℕ

pub data Event : Type 0 where
  rcu_read_lock rcu_read_unlock : Event
  print_task : Task → Event
  start_clobber exit_clobber_line : Event
  func_return : ℤ → Event
  init_kinfo exit_kinfo printing_cpu_info : Event

-- `number--` on a 32-bit `int`, which wraps in the kernel.
unfoldable pub decrement : ℤ → ℤ
decrement (pos zero) = negsuc 0
decrement (pos (suc n)) = pos n
decrement (negsuc n) = if n == 2 ^ 31 - 1 then pos (2 ^ 31 - 1) else negsuc (n + 1)

-- An `int` returned as `unsigned long long`, and that printed by `%lld`.
unfoldable pub to_u64 : ℤ → ℕ
to_u64 (pos n) = n % 2 ^ 64
to_u64 (negsuc n) = 2 ^ 64 - 1 - n % 2 ^ 64

unfoldable pub as_signed : ℕ → ℤ
as_signed w = if ltb w (2 ^ 63) then pos w else negsuc (2 ^ 64 - 1 - w)

-- `for_each_process`, over the processes of the system.
dump_loop : List Task → ℤ → Run Event ℤ
dump_loop [] number = pure number
dump_loop (t ∷ ts) number =
    let rest = dump_loop ts (decrement number) in
    call (print_task t) >> (if is_zero number then pure (decrement number) else rest)

-- The argument `pid` is not used.
pub test_dump_tasklist : List Task → ℤ → ℕ → Run Event ℕ
unfolding dump_loop
test_dump_tasklist tasks number pid = do
  call rcu_read_lock
  left ← dump_loop tasks number
  call rcu_read_unlock
  pure (to_u64 left)

-- `short depends` is two bytes long.
abbrev pub depends_size : ℕ
depends_size = 2

-- `struct test_description`; `res` is an array of eight bytes.
pub record TestDescription : Type 0 where
  pub id : ℤ
  pub duration : ℤ
  pub res : List ℕ
  pub date : ℤ

-- The variables of the module, which the kernel sets to zero.
pub record State : Type 0 where
  pub dummy : ℤ
  pub depends : ℤ
  pub base_lib_desc : TestDescription

pub init_lib : State → State × ℤ
init_lib s = (s, pos 0)

pub exit_lib : State → State
exit_lib s = s

pub test_dump_nodelist : ℕ → ℕ → ℤ → ℤ
test_dump_nodelist p count fd = pos 0xff

pub test_dump_cpulist : ℕ → ℕ → Run Event ℤ
test_dump_cpulist node cpu = call printing_cpu_info >> pure (pos 0xff)

pub clobber_dump_task_list : List Task → Run Event (Unit {0})
clobber_dump_task_list tasks = do
  res ← test_dump_tasklist tasks (pos 100) 0
  call (func_return (as_signed res))

pub init_clobber : List Task → Run Event ℤ
unfolding clobber_dump_task_list
init_clobber tasks = do call start_clobber; clobber_dump_task_list tasks; pure (pos 0)

pub exit_clobber : Run Event (Unit {0})
exit_clobber = call exit_clobber_line

-- `!res`
abbrev pub not_int : ℤ → ℤ
not_int res = if is_zero res then pos 1 else pos 0

pub kinfo_init : Run Event ℤ
unfolding test_dump_cpulist
kinfo_init = do call init_kinfo; res ← test_dump_cpulist 0 0; pure (not_int res)

pub kinfo_exit : Run Event (Unit {0})
kinfo_exit = call exit_kinfo
