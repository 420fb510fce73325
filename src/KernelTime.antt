-- ===== src/KernelTime.antt =====
-- What the modules use of the kernel's `ktime_t`, which is not part of this repository: the
-- difference of two times and a time in nanoseconds.
use yu.Prelude.{ℕ, ◌-◌, ◌≤◌, ◌≡◌, arith}
use yu.Prelude.Int.{ℤ, pos, ◌-ℤ◌}

-- The law is about times that are not negative and whose difference is not: those of a clock that
-- does not run backwards.
pub record KernelTime : Type 1 where
  pub Ktime : Type 0
  pub ktime_sub : Ktime → Ktime → Ktime
  pub ktime_to_ns : Ktime → ℤ
  pub ktime_to_ns-ktime_sub :
      (s t : Ktime) (m n : ℕ)
      → ktime_to_ns s ≡ pos m
      → ktime_to_ns t ≡ pos n
      → n ≤ m
      → ktime_to_ns (ktime_sub s t) ≡ pos (m - n)

diff_pos : (m n : ℕ) → n ≤ m → pos m -ℤ pos n ≡ pos (m - n)
diff_pos m n h = ground arith

pub diff_ns : (s t : ℤ) (m n : ℕ) → s ≡ pos m → t ≡ pos n → n ≤ m → s -ℤ t ≡ pos (m - n)
diff_ns s t m n hs ht h = rw (hs, ht) (diff_pos m n h)

-- The law can be met, by numbers of nanoseconds without a bound.
abbrev pub plain_time : KernelTime
plain_time = record {
  Ktime = ℤ;
  ktime_sub = ◌-ℤ◌;
  ktime_to_ns = λ t. t;
  ktime_to_ns-ktime_sub = diff_ns;
}
