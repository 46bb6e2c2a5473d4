-- ===== src/Base/Masks.antt =====
-- `&` with a mask below 16, and `|` with a number below a power of two, by digits.
use Prim.Native.Nat.{
  ℕ, zero, suc, ◌+◌, ◌*◌, ◌/◌, ◌%◌, ◌^◌, ◌<◌, digits, min, max, bit_and, bit_and-bitwise, bit_or,
  bit_or-bitwise,
}
use mathlib.Core.Path.{◌≡◌, refl, ap, sym, ◌∙◌}
use native.Mathlib.Omega.{arith}
use risky.Base.Bits.{digits_out, digits_count, or_left, pow-two-suc}

bit_and-zero : (b : ℕ) → bit_and 0 b ≡ 0
bit_and-zero b = bit_and-bitwise 0 b ∙ refl

-- One equation for the lowest digit.
bit_and_step : (a b : ℕ) → bit_and a b ≡ bit_and (a / 2) (b / 2) * 2 + min (a % 2) (b % 2)
bit_and_step zero b = omega (arith, bit_and-zero b, bit_and-zero (b / 2))
bit_and_step (suc a) b =
    let half = bit_and-bitwise (suc a / 2) (b / 2) in
    bit_and-bitwise (suc a) b
    ∙ ap (λ (t : ℕ). t * 2 + min (suc a % 2) (b % 2))
        (digits_count _ min a (suc a / 2) (suc a / 2) (b / 2) (omega arith) (omega arith)
          ∙ sym half)

and_left : (count a : ℕ) → digits (λ r. zero) min count a 0 ≡ 0
and_left count zero = digits_out (λ r. zero) min count 0
and_left zero (suc a) = refl
and_left (suc count) (suc a) = omega (arith, and_left count (suc a / 2))

bit_and_none : (a : ℕ) → bit_and a 0 ≡ 0
bit_and_none a = bit_and-bitwise a 0 ∙ and_left a a

-- The four lowest digits of a word under a mask.
pub bit_and_nibble :
    (a m : ℕ)
    → m < 16
    → bit_and a m
      ≡ ((min (a / 8 % 2) (m / 8) * 2 + min (a / 4 % 2) (m / 4 % 2)) * 2
            + min (a / 2 % 2) (m / 2 % 2))
          * 2
        + min (a % 2) (m % 2)
bit_and_nibble a m h =
    let top : m / 2 / 2 / 2 / 2 ≡ 0 = omega arith in
    omega (
      arith,
      bit_and_step a m,
      bit_and_step (a / 2) (m / 2),
      bit_and_step (a / 2 / 2) (m / 2 / 2),
      bit_and_step (a / 2 / 2 / 2) (m / 2 / 2 / 2),
      bit_and_none (a / 2 / 2 / 2 / 2),
      ap (λ (t : ℕ). bit_and (a / 2 / 2 / 2 / 2) t) top,
    )

-- One equation for the lowest digit.
bit_or_step : (a b : ℕ) → bit_or a b ≡ bit_or (a / 2) (b / 2) * 2 + max (a % 2) (b % 2)
bit_or_step zero b = omega (arith, bit_or-bitwise 0 b, bit_or-bitwise 0 (b / 2))
bit_or_step (suc a) b =
    let half = bit_or-bitwise (suc a / 2) (b / 2) in
    bit_or-bitwise (suc a) b
    ∙ ap (λ (t : ℕ). t * 2 + max (suc a % 2) (b % 2))
        (digits_count _ max a (suc a / 2) (suc a / 2) (b / 2) (omega arith) (omega arith)
          ∙ sym half)

bit_or_none : (a : ℕ) → bit_or a 0 ≡ a
bit_or_none a = bit_or-bitwise a 0 ∙ or_left a a (omega arith)

-- A multiple of `2 ^ k` and a number below it have no digit in common.
pub bit_or-mul_pow : (k a b : ℕ) → b < 2 ^ k → bit_or (a * 2 ^ k) b ≡ a * 2 ^ k + b
bit_or-mul_pow zero a b h =
    let none_left : b ≡ 0 = omega arith in rw none_left (omega (arith, bit_or_none (a * 2 ^ 0)))
bit_or-mul_pow (suc k) a b h = rw twice (
    bit_or_step (a * 2 ^ k * 2) b
    ∙ rw halved (omega (arith, bit_or-mul_pow k a (b / 2) (omega (arith, pow-two-suc k)))))
  where
    twice : a * 2 ^ suc k ≡ a * 2 ^ k * 2
    twice = omega (arith, ap (λ (t : ℕ). a * t) (pow-two-suc k))

    halved : a * 2 ^ k * 2 / 2 ≡ a * 2 ^ k
    halved = omega arith
