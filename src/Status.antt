-- ===== src/Status.antt =====
-- stattests/pid_status.c, stattests/stat_tests.h and stattests/debug.h: threads that print lines of their files
-- below /proc/self/task. A file is the list of its bytes.
pub mod Text
pub mod Lines
pub mod Show
pub mod Callers
pub mod Threads
mod Tests
use yu.Prelude.{
  ℕ, zero, suc, ◌+◌, ◌*◌, ◌/◌, ◌^◌, Bool, true, false, Option, none, some, List, [], ◌∷◌, ◌==◌,
  if◌then◌else◌, length, ltb,
}
use yu.Prelude.Int.{ℤ}
use yu.Prelude.Trace.{Run, ◌>>=◌, ◌>>◌, pure, call, oops, run, after, and_then, done, fault}
use yu.Prelude.CString.{c_string}
use yu.Status.Text.{fgets, contains}

-- `/proc/self/task/%d/stat` and its neighbours, for a thread.
pub data ProcFile : Type 0 where
  stat : ℕ → ProcFile
  schedstat : ℕ → ProcFile
  status : ℕ → ProcFile

-- The three threads of the process, the new ones by the functions that they run.
pub data Thread : Type 0 where
  main_thread func_thread preempt_thread : Thread

pub data Policy : Type 0 where
  sched_other sched_rr : Policy

pub data Level : Type 0 where
  info error warn : Level

-- `debug_prefix` is the `printf` of the level and the two numbers of the thread, and a name that
-- begins with `debug_` else the `printf` of a text.
pub data Event : Type 0 where
  debug_prefix : Level → Event
  fopen : ProcFile → Event
  perror_fopen : Event
  debug_error : ProcFile → Event
  debug_checking : ProcFile → Event
  printf : List ℕ → Event
  set_tid_address : Event
  debug_thread debug_bind : Event
  sleep : ℕ → Event
  cpu_alloc : ℕ → Event
  cpu_zero cpu_free : Event
  cpu_set : ℕ → Event
  getaffinity setaffinity debug_cset : Event
  get_priority_max get_priority_min : Policy → Event
  debug_tid : Event
  debug_preempt_core : ℕ → Event
  debug_range : ℤ → ℤ → Policy → Event
  getschedparam : Event
  debug_policy : ℤ → ℤ → Event
  setschedparam : Policy → ℤ → Event
  perror_setschedparam : Event
  debug_failed debug_priority : ℤ → Event
  attr_init attr_destroy attr_setaffinity attr_setinheritsched : Thread → Event
  attr_setschedparam : Thread → ℤ → Event
  pthread_create : Thread → Bool → Event
  pthread_join : Thread → Event
  debug_joined : Event

-- The macro `debug_print`: two calls of `printf`.
abbrev pub debug_print : Level → Event → Run Event (Unit {0})
debug_print level text = call (debug_prefix level) >> call text

-- What `fopen` finds: the bytes of a file, or no file.
abbrev pub Files : Type 0
Files = ProcFile → Option (List ℕ)

-- `match_func_t`; `none` is a null pointer.
abbrev pub MatchFunc : Type 0
MatchFunc = Option (List ℕ → List ℕ → ℕ)

-- Both arguments are C strings.
unfoldable pub match_line : List ℕ → List ℕ → ℕ
match_line line str = if contains str line then 1 else 0

-- The macro MATCH_LINE; `%s` prints the line up to its null byte.
match_and_print : MatchFunc → List ℕ → List ℕ → Run Event (Unit {0})
match_and_print none line str = call (printf line)
match_and_print (some match_func) line str =
    if match_func line str == 0 then pure tt else call (printf line)

-- `while (fgets(buf, 1024, fp))`, on fuel. The buffer is cleared after each round.
pub show_loop : ℕ → MatchFunc → List ℕ → List ℕ → Run Event (Unit {0})
show_loop zero match_func str content = oops
show_loop (suc fuel) match_func str content = elim (fgets 1024 content) [
  | none ↦ pure tt
  | some (buf, rest) ↦
      match_and_print match_func (c_string buf) str >> show_loop fuel match_func str rest
]

-- Every round takes a byte from the file, so one round more than it has bytes is enough.
pub show_one_info : Files → ProcFile → MatchFunc → List ℕ → Run Event (Unit {0})
unfolding show_loop match_and_print
show_one_info files f match_func str = call (fopen f) >> elim (files f) [
  | none ↦ do call perror_fopen; debug_print error (debug_error f)
  | some content ↦ do
    debug_print info (debug_checking f)
    show_loop (suc (length content)) match_func str content
]

-- The first `fopen` is of the same file, whose stream is not used.
pub show_all_info : Files → ℕ → Run Event (Unit {0})
unfolding show_one_info
show_all_info files tid = do
  call (fopen (stat tid))
  show_one_info files (stat tid) none []
  show_one_info files (schedstat tid) none []
  show_one_info files (status tid) none []

abbrev pub preempt_core : ℕ
preempt_core = 2

-- The size of a `cpu_set_t`, which holds 1024 processors.
abbrev pub cpu_set_size : ℕ
cpu_set_size = 128

-- The bytes that CPU_ALLOC gives for so many processors (CPU_ALLOC_SIZE): a bit for each, in words
-- of 64.
abbrev pub cpu_alloc_size : ℕ → ℕ
cpu_alloc_size count = ((count + 63) / 64) * 8

-- CPU_ZERO on a set that CPU_ALLOC has given `room` bytes: it writes a whole `cpu_set_t`.
pub clear_set : ℕ → Run Event (Unit {0})
clear_set room = if ltb room cpu_set_size then oops else call cpu_zero

-- CPU_ALLOC (8), CPU_ZERO.
pub new_set : Run Event (Unit {0})
unfolding clear_set
new_set = call (cpu_alloc 8) >> clear_set (cpu_alloc_size 8)

-- `for (i=0; i< 3; i++)` of `thread_func`. The file may change between two rounds.
pub thread_rounds : ℕ → (ℕ → Files) → ℕ → List ℕ → Run Event (Unit {0})
thread_rounds zero files tid str = pure tt
thread_rounds (suc left) files tid str = do
  show_one_info (files left) (status tid) (some match_line) str
  call (sleep 2)
  thread_rounds left files tid str

-- The literal "Cpus_allowed:" is the argument `str`.
pub thread_func : (ℕ → Files) → ℕ → List ℕ → Run Event (Unit {0})
unfolding thread_rounds show_one_info new_set
thread_func files tid str = do
  call set_tid_address
  debug_print info debug_thread
  call (sleep 2)
  debug_print info debug_bind
  new_set
  call (cpu_set preempt_core)
  call setaffinity
  thread_rounds 3 files tid str
