-- ===== src/BaseLib/Dump.antt =====
-- How many processes `test_dump_tasklist` prints, and what it returns.
use yu.Prelude.{
  ℕ, zero, suc, ◌+◌, ◌-◌, ◌^◌, ◌<◌, ◌≡◌, List, [], ◌∷◌, ◌++◌, ltb, if◌then◌else◌, length, take,
  append_assoc, arith,
}
use mathlib.Core.List.{map}
use yu.Prelude.Int.{ℤ, pos, negsuc}
use yu.Prelude.Trace.{run, done}
use yu.BaseLib.{
  Task, rcu_read_lock, rcu_read_unlock, print_task, start_clobber, func_return, decrement, to_u64,
  as_signed, dump_loop, test_dump_tasklist, init_clobber,
}

-- The count after the loop, from a count that is not negative.
abbrev pub left_over : ℕ → ℕ → ℤ
left_over n tasks = if ltb n tasks then negsuc 0 else pos (n - tasks)

dump_loop-take :
    (ts : List Task) (n : ℕ)
    → dump_loop ts (pos n) ≡ run (map print_task (take (suc n) ts)) (done (left_over n (length ts)))
unfolding dump_loop decrement
dump_loop-take [] n = ground arith
dump_loop-take (t ∷ ts) zero = ground arith
dump_loop-take (t ∷ ts) (suc n) = rw (dump_loop-take ts n) (ground arith)

-- From a negative count the loop prints every process.
dump_loop-negative :
    (ts : List Task) (n : ℕ)
    → n + length ts < 2 ^ 31
    → dump_loop ts (negsuc n) ≡ run (map print_task ts) (done (negsuc (n + length ts)))
unfolding dump_loop decrement
dump_loop-negative [] n h = ground arith
dump_loop-negative (t ∷ ts) n h = ground (arith, dump_loop-negative ts (n + 1))

-- From a count that is not negative, `test_dump_tasklist` holds the RCU lock round the loop, prints
-- the first `number + 1` processes, and returns -1 as an unsigned number if there are more than
-- `number`, or else how many are missing.
pub test_dump_tasklist-take :
    (ts : List Task) (n pid : ℕ)
    → n < 2 ^ 31
    → test_dump_tasklist ts (pos n) pid
      ≡ run
          (rcu_read_lock ∷ map print_task (take (suc n) ts) ++ rcu_read_unlock ∷ [])
          (done (if ltb n (length ts) then 2 ^ 64 - 1 else n - length ts))
unfolding test_dump_tasklist to_u64
test_dump_tasklist-take ts n pid h = rw (dump_loop-take ts n) (ground arith)

-- From a negative count it prints every process, as long as the count cannot reach its least value,
-- and returns the count less the number of processes.
pub test_dump_tasklist-negative :
    (ts : List Task) (n pid : ℕ)
    → n + length ts < 2 ^ 31
    → test_dump_tasklist ts (negsuc n) pid
      ≡ run
          (rcu_read_lock ∷ map print_task ts ++ rcu_read_unlock ∷ [])
          (done (2 ^ 64 - 1 - (n + length ts)))
unfolding test_dump_tasklist to_u64
test_dump_tasklist-negative ts n pid h = rw (dump_loop-negative ts n h) (ground arith)

-- What the loop keeps in an `int`, from a count and with a list of processes.
abbrev pub StaysInt : ℤ → List Task → Type 0
StaysInt (pos n) ts = n < 2 ^ 31
StaysInt (negsuc n) ts = n + length ts < 2 ^ 31

-- The processes that are expected to be printed, and the number to be returned.
abbrev pub shown : ℤ → List Task → List Task
shown (pos n) ts = take (suc n) ts
shown (negsuc n) ts = ts

abbrev pub returned : ℤ → List Task → ℕ
returned (pos n) ts = if ltb n (length ts) then 2 ^ 64 - 1 else n - length ts
returned (negsuc n) ts = 2 ^ 64 - 1 - (n + length ts)

-- From a count that the loop keeps in an `int`, `test_dump_tasklist` holds the RCU lock round the
-- loop and ends. From `number`, not negative, it prints the first `number + 1` processes, and returns
-- -1 as an unsigned number if there are more than `number`, or else how many are missing. From a
-- negative count it prints every process, and returns the count less the number of processes, as an
-- unsigned number.
pub test_dump_tasklist-shown :
    (ts : List Task) (number : ℤ) (pid : ℕ)
    → StaysInt number ts
    → test_dump_tasklist ts number pid
      ≡ run
          (rcu_read_lock ∷ map print_task (shown number ts) ++ rcu_read_unlock ∷ [])
          (done (returned number ts))
test_dump_tasklist-shown ts (pos n) pid h = test_dump_tasklist-take ts n pid h
test_dump_tasklist-shown ts (negsuc n) pid h = test_dump_tasklist-negative ts n pid h

-- The module test_clobber prints at most 101 processes, and then the number 100 less the number of
-- processes, or -1 if there are more than 100.
pub init_clobber-reports :
    (ts : List Task)
    → init_clobber ts
      ≡ run
          (start_clobber
            ∷ rcu_read_lock
            ∷ (map print_task (take 101 ts)
                ++ rcu_read_unlock ∷ func_return (left_over 100 (length ts)) ∷ []))
          (done (pos 0))
unfolding init_clobber as_signed
init_clobber-reports ts =
    let signed : as_signed (if ltb 100 (length ts) then 2 ^ 64 - 1 else 100 - length ts)
        ≡ left_over 100 (length ts) =
      ground arith in
    rw (test_dump_tasklist-take ts 100 0 (omega arith), signed) (simp append_assoc)
