-- ===== src/Base/Bits.antt =====
-- `&`, `|` and `^` of C at variables. The native operations mean a recursion on binary digits.
use Prim.Native.Nat.{
  ℕ, zero, suc, ◌+◌, ◌-◌, ◌*◌, ◌/◌, ◌%◌, ◌^◌, ◌≤◌, ◌<◌, digits, differ, bit_or, bit_or-bitwise, max,
  bit_xor, bit_xor-bitwise,
}
use mathlib.Core.Path.{◌≡◌, refl, ap, sym, ◌∙◌}
use native.Mathlib.Nat.{pow-suc}
use native.Mathlib.Omega.{arith}
use risky.Base.Tests.{◌==◌, if◌then◌else◌}

-- Once the first number has run out, the count of digits does not matter.
pub digits_out : (z : ℕ → ℕ) (f : ℕ → ℕ → ℕ) (count b : ℕ) → digits z f count 0 b ≡ z b
digits_out z f zero b = refl
digits_out z f (suc count) b = refl

-- Nor does it matter beyond the first number.
pub digits_count :
    (z : ℕ → ℕ) (f : ℕ → ℕ → ℕ) (c d a b : ℕ) → a ≤ c → a ≤ d → digits z f c a b ≡ digits z f d a b
digits_count z f c d zero b le to = digits_out z f c b ∙ sym (digits_out z f d b)
digits_count z f zero d (suc a) b le to = absurd (omega arith)
digits_count z f (suc c) zero (suc a) b le to = absurd (omega arith)
digits_count z f (suc c) (suc d) (suc a) b le to =
    ap (λ (t : ℕ). t * 2 + f (suc a % 2) (b % 2))
      (digits_count z f c d (suc a / 2) (b / 2) (omega arith) (omega arith))

zero-differ : (b : ℕ) → differ 0 b ≡ b
zero-differ b = refl

-- One equation for the lowest digit.
bit_xor_step : (a b : ℕ) → bit_xor a b ≡ bit_xor (a / 2) (b / 2) * 2 + differ (a % 2) (b % 2)
bit_xor_step zero b =
    omega (arith, bit_xor-bitwise 0 b, bit_xor-bitwise 0 (b / 2), zero-differ (b % 2))
bit_xor_step (suc a) b =
    let half = bit_xor-bitwise (suc a / 2) (b / 2) in
    bit_xor-bitwise (suc a) b
    ∙ ap (λ (t : ℕ). t * 2 + differ (suc a % 2) (b % 2))
        (digits_count (λ r. r) differ a (suc a / 2) (suc a / 2) (b / 2) (omega arith) (omega arith)
          ∙ sym half)

differ-zero : (a : ℕ) → differ a 0 ≡ a
differ-zero zero = refl
differ-zero (suc a) = refl

digits_left : (count a : ℕ) → a ≤ count → digits (λ r. r) differ count a 0 ≡ a
digits_left count zero le = digits_out (λ r. r) differ count 0
digits_left zero (suc a) le = absurd (omega arith)
digits_left (suc count) (suc a) le =
    omega (arith, digits_left count (suc a / 2) (omega arith), differ-zero (suc a % 2))

bit_xor-zero : (a : ℕ) → bit_xor a 0 ≡ a
bit_xor-zero a = bit_xor-bitwise a 0 ∙ digits_left a a (omega arith)

differ_digit : (d : ℕ) → d < 2 → differ d 1 ≡ 1 - d
differ_digit zero h = refl
differ_digit (suc zero) h = refl
differ_digit (suc (suc d)) h = absurd (omega arith)

-- Flipping the lowest bit.
pub bit_xor-one : (a : ℕ) → bit_xor a 1 ≡ (if a % 2 == 0 then a + 1 else a - 1)
bit_xor-one a = ground (arith, bit_xor_step a 1, bit_xor-zero (a / 2), differ_digit (a % 2))

pub pow-two-suc : (k : ℕ) → 2 ^ suc k ≡ 2 ^ k * 2
pow-two-suc k = omega (arith, pow-suc 2 k)

double_bit_xor : (a b : ℕ) → bit_xor (a * 2) (b * 2) ≡ bit_xor a b * 2
double_bit_xor a b =
    bit_xor_step (a * 2) (b * 2)
    ∙ rw (halved a, halved b, even a, even b) (omega (arith, zero-differ 0))
  where
    halved : (n : ℕ) → n * 2 / 2 ≡ n
    halved n = omega arith

    even : (n : ℕ) → n * 2 % 2 ≡ 0
    even n = omega arith

-- Flipping bit `k` of a multiple of `2 ^ k` flips the lowest bit of the quotient.
pub bit_xor-mul_pow : (k j : ℕ) → bit_xor (j * 2 ^ k) (2 ^ k) ≡ bit_xor j 1 * 2 ^ k
bit_xor-mul_pow zero j = omega (arith, ap (λ (t : ℕ). bit_xor t 1) (mul_one j))
  where
    mul_one : (n : ℕ) → n * 2 ^ 0 ≡ n
    mul_one n = omega arith
bit_xor-mul_pow (suc k) j =
    rw (twice, pow-two-suc k)
      (omega (arith, halve, bit_xor-mul_pow k j, ap (λ (t : ℕ). bit_xor j 1 * t) (pow-two-suc k)))
  where
    twice : j * 2 ^ suc k ≡ j * 2 ^ k * 2
    twice = omega (arith, ap (λ (t : ℕ). j * t) (pow-two-suc k))

    halve : bit_xor (j * 2 ^ k * 2) (2 ^ k * 2) ≡ bit_xor (j * 2 ^ k) (2 ^ k) * 2
    halve = double_bit_xor (j * 2 ^ k) (2 ^ k)

pub or_left : (count a : ℕ) → a ≤ count → digits (λ r. r) max count a 0 ≡ a
or_left count zero le = digits_out (λ r. r) max count 0
or_left zero (suc a) le = absurd (omega arith)
or_left (suc count) (suc a) le = omega (arith, or_left count (suc a / 2) (omega arith))

-- Setting the lowest bit of an even number.
pub bit_or-one : (a : ℕ) → a % 2 ≡ 0 → bit_or a 1 ≡ a + 1
bit_or-one zero even = bit_or-bitwise 0 1
bit_or-one (suc a) even =
    let rest = digits_count (λ r. r) max a (suc a / 2) (suc a / 2) 0 (omega arith) (omega arith) in
    let half = or_left (suc a / 2) (suc a / 2) (omega arith) in
    omega (arith, bit_or-bitwise (suc a) 1, rest, half)
