-- ===== src/Common/Bits.antt =====
-- `|` and `&` on native numbers at variables, from the digit recursion that they stand for.
use Prim.Native.Nat.{
  ℕ, zero, suc, ◌+◌, ◌-◌, ◌*◌, ◌/◌, ◌%◌, ◌^◌, ◌≤◌, ◌<◌, min, max, bit_and, bit_or, digits, bitwise,
  bit_and-bitwise, bit_or-bitwise,
}
use mathlib.Core.Path.{◌≡◌, refl, sym, ap, ◌∙◌}
use mathlib.Core.Logic.{◌≢◌, ◌⊎◌}
use native.Mathlib.Nat.{
  le_refl, mod_def, mul_assoc, mul-div-le, mul-one, div-one, one-le-pow, pow-suc, mul_comm,
  div-div-eq-div-mul, zero-div,
}
use native.Mathlib.Omega.{arith}

-- An operation given by its digits: `z` answers where the first number is used up, `f` on two digits.
module _ (z : ℕ → ℕ) (f : ℕ → ℕ → ℕ) where
  used_up : (fuel low : ℕ) → digits z f fuel 0 low ≡ z low
  used_up zero low = refl
  used_up (suc fuel) low = refl

  more_fuel :
      (a low enough fuel : ℕ)
      → a ≤ enough
      → enough ≤ fuel
      → digits z f fuel a low ≡ digits z f enough a low
  more_fuel zero low enough fuel h k = used_up fuel low ∙ sym (used_up enough low)
  more_fuel (suc a) low zero fuel h k = absurd (omega arith)
  more_fuel (suc a) low (suc enough) zero h k = absurd (omega arith)
  more_fuel (suc a) low (suc enough) (suc fuel) h k =
      ap (λ (upper : ℕ). upper * 2 + f (suc a % 2) (low % 2))
        (more_fuel (suc a / 2) (low / 2) enough fuel (omega arith) (omega arith))

  -- The lowest digit splits off, if `z` agrees with `f` there.
  split_digit :
      ((low : ℕ) → z low ≡ z (low / 2) * 2 + f 0 (low % 2))
      → (a low : ℕ) → bitwise z f a low ≡ bitwise z f (a / 2) (low / 2) * 2 + f (a % 2) (low % 2)
  split_digit agree zero low = agree low
  split_digit agree (suc a) low =
      ap (λ (upper : ℕ). upper * 2 + f (suc a % 2) (low % 2))
        (more_fuel (suc a / 2) (low / 2) (suc a / 2) a (omega arith) (omega arith))

pub bit_or_step : (a b : ℕ) → bit_or a b ≡ bit_or (a / 2) (b / 2) * 2 + max (a % 2) (b % 2)
bit_or_step a b = simp bit_or-bitwise (split_digit (λ low. low) max (λ low. omega arith) a b)

pub bit_and_step : (a b : ℕ) → bit_and a b ≡ bit_and (a / 2) (b / 2) * 2 + min (a % 2) (b % 2)
bit_and_step a b = simp bit_and-bitwise (split_digit (λ low. 0) min (λ low. omega arith) a b)

zero-bit_and : (b : ℕ) → bit_and 0 b ≡ 0
zero-bit_and b = bit_and-bitwise 0 b

pub zero-bit_or : (b : ℕ) → bit_or 0 b ≡ b
zero-bit_or b = simp bit_or-bitwise (omega arith)

bit_or-zero_fuel : (n a : ℕ) → a ≤ n → bit_or a 0 ≡ a
bit_or-zero_fuel n zero h = zero-bit_or 0
bit_or-zero_fuel zero (suc a) h = absurd (omega arith)
bit_or-zero_fuel (suc n) (suc a) h =
    omega (arith, bit_or_step (suc a) 0, bit_or-zero_fuel n (suc a / 2) (omega arith))

pub bit_or-zero : (a : ℕ) → bit_or a 0 ≡ a
bit_or-zero a = bit_or-zero_fuel a a (le_refl a)

double_shift : (k high : ℕ) → high * 2 ^ suc k ≡ high * 2 ^ k + high * 2 ^ k
double_shift k high = omega (arith, pow-suc 2 k, ap (λ (p : ℕ). high * p) (pow-suc 2 k))

-- A number shifted past `k` bits and one that fits them are or-ed to their sum.
pub bit_or_fields : (k high low : ℕ) → low < 2 ^ k → bit_or (high * 2 ^ k) low ≡ high * 2 ^ k + low
bit_or_fields zero high low h =
    let none : low ≡ 0 = omega arith in rw none (omega (arith, bit_or-zero (high * 1)))
bit_or_fields (suc k) high low h =
    let upper : high * 2 ^ suc k / 2 ≡ high * 2 ^ k = omega (arith, double_shift k high) in
    let half = bit_or_fields k high (low / 2) (omega (arith, pow-suc 2 k)) in
    omega (
      arith,
      bit_or_step (high * 2 ^ suc k) low,
      ap (λ (n : ℕ). bit_or n (low / 2)) upper,
      half,
      double_shift k high,
    )

-- Bit `k` of a number, lowest first.
abbrev pub bit : ℕ → ℕ → ℕ
bit v k = v / 2 ^ k % 2

div-two-pow-suc : (v k : ℕ) → v / 2 ^ suc k ≡ v / 2 / 2 ^ k
div-two-pow-suc v k = rw (pow-suc 2 k, mul_comm (2 ^ k) 2) (sym (div-div-eq-div-mul v 2 (2 ^ k)))

half_two-pow-suc : (k : ℕ) → 2 ^ suc k / 2 ≡ 2 ^ k
half_two-pow-suc k = omega (arith, pow-suc 2 k)

pub bit-suc : (v k : ℕ) → bit v (suc k) ≡ bit (v / 2) k
bit-suc v k = ap (λ (t : ℕ). t % 2) (div-two-pow-suc v k)

-- `v & (1 << k)` is the bit in its place.
pub bit_and-two-pow : (k v : ℕ) → bit_and (2 ^ k) v ≡ bit v k * 2 ^ k
bit_and-two-pow zero v = omega (arith, bit_and_step 1 v, zero-bit_and (v / 2))
bit_and-two-pow (suc k) v = omega (
  arith,
  bit_and_step (2 ^ suc k) v,
  ap (λ (t : ℕ). bit_and t (v / 2)) (half_two-pow-suc k),
  bit_and-two-pow k (v / 2),
  pow-suc 2 k,
  ap (λ (t : ℕ). t * 2 ^ suc k) (bit-suc v k),
  ap (λ (t : ℕ). bit (v / 2) k * t) (pow-suc 2 k),
)

-- The bits of `a | b`.
pub bit-bit_or : (k a b : ℕ) → bit (bit_or a b) k ≡ max (bit a k) (bit b k)
bit-bit_or zero a b = omega (arith, bit_or_step a b)
bit-bit_or (suc k) a b =
    let half : bit_or a b / 2 ≡ bit_or (a / 2) (b / 2) = omega (arith, bit_or_step a b) in
    rw (bit-suc (bit_or a b) k, half, bit-bit_or k (a / 2) (b / 2), ← bit-suc a k, ← bit-suc b k)

pub bit-two-pow_self : (k : ℕ) → bit (2 ^ k) k ≡ 1
bit-two-pow_self zero = refl
bit-two-pow_self (suc k) = rw (bit-suc (2 ^ suc k) k, half_two-pow-suc k) (bit-two-pow_self k)

pub bit-two-pow_ne : (j k : ℕ) → j ≢ k → bit (2 ^ j) k ≡ 0
bit-two-pow_ne zero zero h = absurd (h refl)
bit-two-pow_ne zero (suc k) h = rw (bit-suc 1 k) (rw (zero-div (2 ^ k)))
bit-two-pow_ne (suc j) zero h = omega (arith, pow-suc 2 j)
bit-two-pow_ne (suc j) (suc k) h =
    rw (bit-suc (2 ^ suc j) k, half_two-pow-suc j) (bit-two-pow_ne j k (λ e. h (ap suc e)))

pub bit_or-lt : (n a b : ℕ) → a < 2 ^ n → b < 2 ^ n → bit_or a b < 2 ^ n
bit_or-lt zero a b ha hb =
    let e : a ≡ 0 = omega arith in let e' : b ≡ 0 = omega arith in rw (e, e') (omega arith)
bit_or-lt (suc n) a b ha hb = omega (
  arith,
  pow-suc 2 n,
  bit_or_step a b,
  bit_or-lt n (a / 2) (b / 2) (omega (arith, pow-suc 2 n)) (omega (arith, pow-suc 2 n)),
)

-- The code's test of a bit, `(v & (1 << k)) > 0`.
pub test_set : (v k : ℕ) → bit v k ≡ 1 → 0 < bit_and (2 ^ k) v
test_set v k h =
    omega (arith, bit_and-two-pow k v, ap (λ (t : ℕ). t * 2 ^ k) h, one-le-pow k 2 (omega arith))

pub test_unset : (v k : ℕ) → bit v k ≡ 0 → bit_and (2 ^ k) v ≡ 0
test_unset v k h = omega (arith, bit_and-two-pow k v, ap (λ (t : ℕ). t * 2 ^ k) h)

pub bit_cases : (v k : ℕ) → (bit v k ≡ 0) ⊎ (bit v k ≡ 1)
bit_cases v k = omega arith

-- A mask of the low bits takes the remainder, and one that is shifted takes the bits above.
pub bit_and_low : (k v : ℕ) → bit_and (2 ^ k - 1) v ≡ v % 2 ^ k
bit_and_low zero v = omega (arith, zero-bit_and v)
bit_and_low (suc k) v =
    let half : (2 ^ suc k - 1) / 2 ≡ 2 ^ k - 1 =
      omega (arith, pow-suc 2 k, one-le-pow k 2 (omega arith)) in
    let q = v / 2 / 2 ^ k in
    omega (
      arith,
      bit_and_step (2 ^ suc k - 1) v,
      ap (λ (t : ℕ). bit_and t (v / 2)) half,
      bit_and_low k (v / 2),
      pow-suc 2 k,
      one-le-pow k 2 (omega arith),
      mod_def v (2 ^ suc k),
      mod_def (v / 2) (2 ^ k),
      ap (λ (t : ℕ). 2 ^ suc k * t) (div-two-pow-suc v k),
      ap (λ (t : ℕ). t * q) (pow-suc 2 k),
      mul_assoc 2 (2 ^ k) q,
      ap (λ (t : ℕ). t * q) (mul_comm (2 ^ k) 2),
      mul-div-le (v / 2) (2 ^ k),
    )

pub bit_and_shift : (k m v : ℕ) → bit_and (m * 2 ^ k) v ≡ bit_and m (v / 2 ^ k) * 2 ^ k
bit_and_shift zero m v = rw (mul-one m, div-one v) (sym (mul-one (bit_and m v)))
bit_and_shift (suc k) m v =
    let half : m * 2 ^ suc k / 2 ≡ m * 2 ^ k = omega (arith, double_shift k m) in
    omega (
      arith,
      bit_and_step (m * 2 ^ suc k) v,
      ap (λ (t : ℕ). bit_and t (v / 2)) half,
      bit_and_shift k m (v / 2),
      double_shift k m,
      ap (λ (t : ℕ). bit_and m t * 2 ^ suc k) (div-two-pow-suc v k),
      double_shift k (bit_and m (v / 2 / 2 ^ k)),
    )
