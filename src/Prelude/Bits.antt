-- ===== src/Prelude/Bits.antt =====
-- `&` with a mask of consecutive ones, as division and remainder, at every width.
use Prim.Native.Nat.{
  ℕ, zero, suc, ◌+◌, ◌-◌, ◌*◌, ◌/◌, ◌%◌, ◌^◌, ◌≤◌, ◌<◌, min, bit_and, digits, bit_and-bitwise,
}
use mathlib.Core.Path.{◌≡◌, refl, sym, ap}
use native.Mathlib.Omega.{arith}
use native.Mathlib.Nat.{pow-suc, one-le-pow, div-div-eq-div-mul, div-one, mul-one}

-- The recursion on binary digits by which the library explains `&`, with `rounds` digits at most.
abbrev conjunction : (rounds x y : ℕ) → ℕ
conjunction = digits (λ _. 0) min

-- With as many rounds as the first operand is large it is `&`. The bound is for the induction, which
-- goes to two smaller numbers of rounds at once.
conjunction-bit_and :
    (bound rounds x y : ℕ) → rounds ≤ bound → x ≤ rounds → conjunction rounds x y ≡ bit_and x y
conjunction-bit_and bound zero zero y r h = sym (bit_and-bitwise 0 y)
conjunction-bit_and bound (suc n) zero y r h = sym (bit_and-bitwise 0 y)
conjunction-bit_and bound zero (suc p) y r h = absurd (omega arith)
conjunction-bit_and zero (suc n) (suc p) y r h = absurd (omega arith)
conjunction-bit_and (suc bound) (suc n) (suc p) y r h =
    let half : ℕ = suc p / 2 in
    let long = conjunction-bit_and bound n half (y / 2) (omega arith) (omega arith) in
    let short = conjunction-bit_and bound p half (y / 2) (omega arith) (omega arith) in
    omega (arith, long, short, bit_and-bitwise (suc p) y)

-- The lowest digit of `x & y`, and the others.
low_digit : (x y : ℕ) → bit_and x y ≡ 2 * bit_and (x / 2) (y / 2) + min (x % 2) (y % 2)
low_digit zero y = omega (arith, bit_and-bitwise 0 y, bit_and-bitwise 0 (y / 2))
low_digit (suc p) y =
    let rest = conjunction-bit_and p p (suc p / 2) (y / 2) (omega arith) (omega arith) in
    omega (arith, bit_and-bitwise (suc p) y, rest)

no_digits : (bound x : ℕ) → x ≤ bound → bit_and x 0 ≡ 0
no_digits bound zero h = refl
no_digits zero (suc p) h = absurd (omega arith)
no_digits (suc bound) (suc p) h =
    omega (arith, no_digits bound (suc p / 2) (omega arith), low_digit (suc p) 0)

-- One place more doubles the value of a digit.
place-suc : (k q : ℕ) → q * 2 ^ suc k ≡ 2 * (q * 2 ^ k)
place-suc k q = omega (arith, ap (λ (t : ℕ). q * t) (pow-suc 2 k))

-- `q` above the `k` lowest places and `r` in them.
below_place : (k q r : ℕ) → r < 2 ^ k → bit_and (q * 2 ^ k + r) (2 ^ k - 1) ≡ r
below_place zero q r small = omega (arith, no_digits (q * 1 + r) (q * 1 + r) (omega arith))
below_place (suc k) q r small =
    let half = below_place k q (r / 2) (omega (arith, pow-suc 2 k)) in
    let digit = low_digit (q * 2 ^ suc k + r) (2 ^ suc k - 1) in
    ground (arith, half, digit, place-suc k q, pow-suc 2 k, one-le-pow k 2)

-- A mask of `k` low ones is the remainder by `2 ^ k`.
pub bit_and_mask : (k a : ℕ) → bit_and a (2 ^ k - 1) ≡ a % 2 ^ k
bit_and_mask k a = ground (arith, below_place k (a / 2 ^ k) (a % 2 ^ k), one-le-pow k 2)

-- A mask that is shifted up by `k` leaves the digits from `k` on.
pub bit_and_shift : (k a m : ℕ) → bit_and a (m * 2 ^ k) ≡ bit_and (a / 2 ^ k) m * 2 ^ k
bit_and_shift zero a m = rw (div-one a, mul-one m, mul-one (bit_and a m))
bit_and_shift (suc k) a m =
    let digit = low_digit a (m * 2 ^ suc k) in
    let half = bit_and_shift k (a / 2) m in
    ground (
      arith,
      digit,
      half,
      place-suc k m,
      place-suc k (bit_and (a / 2 / 2 ^ k) m),
      pow-suc 2 k,
      div-div-eq-div-mul a 2 (2 ^ k),
    )
