-- ===== src/Pita.antt =====
-- kmods/event_mod/pita.c and the event of kmods/event_mod/trace.h: a module that records as an event each number
-- that is written to its file in debugfs.
pub mod Files
pub mod Writes
pub mod Depends
pub mod Uses
mod Tests
use yu.Prelude.{
  ℕ, ◌-◌, ◌%◌, ◌^◌, ◌==◌, ltb, leb, ◌&&◌, ◌+◌, ◌/◌, if◌then◌else◌, Option, none, some, List, [],
  ◌∷◌,
}
use yu.Prelude.Int.{ℤ, pos, negsuc, sub_ℕ}
use yu.Prelude.Trace.{Run, ◌>>=◌, ◌>>◌, pure, call, run, after, and_then, done, fault}

pub data Event : Type 0 where
  debugfs_create_dir : ℕ → Event
  debugfs_create_file : ℕ → ℕ → Event
  debugfs_remove : ℕ → Event
  debugfs_remove_recursive : ℕ → Event
  warn_on : Event
  say_initialized say_unloaded say_tracing : Event
  trace_pita : ℕ → Event

-- Memory, by the byte.
abbrev pub Memory : Type 0
Memory = ℕ → ℕ

-- `*p = w` for an `int` of four bytes, the lowest first.
unfoldable pub store_int : Memory → ℕ → ℕ → Memory
store_int memory p w = λ q. if leb p q && ltb q (p + 4) then w / 256 ^ (q - p) % 256 else memory q

-- The variables of the module, and the memory, in which `depends` lies, which is another module's. An
-- entry that is 0 is a null pointer.
pub record State : Type 0 where
  pub d_pita : ℕ
  pub d_test : ℕ
  pub memory : Memory

-- What the two calls that create an entry return.
pub record Answers : Type 0 where
  pub dir : ℕ
  pub file : ℕ

abbrev pub einval : ℤ
einval = negsuc 21

-- The conversions of `int` to `unsigned int`, and of `size_t` to `ssize_t`.
abbrev pub to_unsigned : ℤ → ℕ
to_unsigned (pos n) = n % 2 ^ 32
to_unsigned (negsuc n) = 2 ^ 32 - 1 - n % 2 ^ 32

abbrev pub to_ssize : ℕ → ℤ
to_ssize n = if ltb n (2 ^ 63) then pos n else sub_ℕ n (2 ^ 64)

-- `depends` is the address of the variable, which is declared here as `int`.
pub test_open : ℕ → State → State × ℤ
unfolding store_int
test_open depends s = (record s { memory = store_int s.memory depends 0 }, pos 0)

pub test_read : ℕ → ℤ
test_read cnt = pos 0

-- `parsed` is the number that `kstrtoint_from_user` finds in the text, `none` if it fails.
pub test_write : Option ℤ → ℕ → Run Event ℤ
test_write none cnt = pure einval
test_write (some pita) cnt =
    call say_tracing >> call (trace_pita (to_unsigned pita)) >> pure (to_ssize cnt)

-- The operations of a file that the module gives: a write is passed on with the number that is found
-- in its text, and a seek with its offset and its origin.
pub record FileOperations : Type 0 where
  pub open_ : ℕ → State → State × ℤ
  pub read : ℕ → ℤ
  pub write : Option ℤ → ℕ → Run Event ℤ
  pub llseek : ℤ → ℤ → ℤ

-- `default_llseek` is the kernel's.
pub test_fops : (ℤ → ℤ → ℤ) → FileOperations
unfolding test_open test_read test_write
test_fops default_llseek = record {
  open_ = test_open;
  read = test_read;
  write = test_write;
  llseek = default_llseek;
}

pub pita_init : Answers → State → Run Event (State × ℤ)
pita_init a s =
    let made = record s { d_pita = a.dir } in
    let full = record made { d_test = a.file } in
    do
      call (debugfs_create_dir a.dir)
      if a.dir == 0 then call warn_on >> pure (made, negsuc 0) else (do
        call (debugfs_create_file a.dir a.file)
        if a.file == 0
            then call warn_on >> call (debugfs_remove a.dir) >> pure (full, negsuc 0)
            else (call say_initialized >> pure (full, pos 0)))

pub pita_exit : State → Run Event (Unit {0})
pita_exit s = call (debugfs_remove_recursive s.d_pita) >> call say_unloaded
