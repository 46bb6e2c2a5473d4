-- ===== src/Pmm/Buddy.antt =====
-- Where the buddy of a block lies: the arithmetic of `pmm_buddy_pfn` among aligned blocks.
use native.Mathlib.Nat.{
  one-le-pow, mul-le-mul_right, le_of_mul-le-mul_right, lt_of_mul-lt-mul_right,
}
use native.Mathlib.Decide.{dec_lt, dec_le}
use risky.Base.{
  ◌⊎◌, inl, inr, ℕ, zero, suc, ◌+◌, ◌-◌, ◌*◌, ◌/◌, ◌%◌, ◌^◌, ◌≤◌, ◌<◌, ◌≡◌, ap, ◌∙◌, bit_xor-one,
  bit_xor-mul_pow, pow-two-suc, arith, ◌==◌, if◌then◌else◌,
}
use risky.Pmm.{pmm_buddy_pfn}

pub two-pow-add : (a d : ℕ) → 2 ^ (a + d) ≡ 2 ^ a * 2 ^ d
two-pow-add a zero = grind arith
two-pow-add a (suc d) = omega (
  arith,
  two-pow-add a d,
  pow-two-suc d,
  pow-two-suc (a + d),
  ap (λ (t : ℕ). 2 ^ t) (add-suc a d),
  ap (λ (t : ℕ). 2 ^ a * t) (pow-two-suc d),
)
  where
    add-suc : (a d : ℕ) → a + suc d ≡ suc (a + d)
    add-suc a d = omega arith

pub two-pow-pos : (k : ℕ) → 1 ≤ 2 ^ k
two-pow-pos k = one-le-pow k 2 (omega arith)

-- `j ^ 1`: the other number of the pair that `j` is in.
abbrev pub other : ℕ → ℕ
other j = if j % 2 == 0 then j + 1 else j - 1

-- The buddy of the block at the `j`-th multiple of its size is the block at the other number of the
-- pair that `j` is in: the next multiple for an even `j`, and the one before for an odd `j`.
pub buddy_pfn_other : (j k : ℕ) → pmm_buddy_pfn (j * 2 ^ k) k ≡ other j * 2 ^ k
unfolding pmm_buddy_pfn
buddy_pfn_other j k = bit_xor-mul_pow k j ∙ ap (λ (t : ℕ). t * 2 ^ k) (bit_xor-one j)

multiple_between : (i t b : ℕ) → i * b ≤ t * b → t * b < i * b + b → i ≡ t
multiple_between i t b h k = grind arith

pair_inside :
    (v e j : ℕ) → 2 * v ≤ other j → other j < 2 * v + 2 * e → (2 * v ≤ j) × (j < 2 * v + 2 * e)
pair_inside v e j h k = ground arith

-- A block of at most this order that contains the buddy begins there.
smaller_block :
    (d k i t : ℕ)
    → i * 2 ^ k ≤ t * 2 ^ (k + d)
    → t * 2 ^ (k + d) < i * 2 ^ k + 2 ^ k
    → i * 2 ^ k ≡ t * 2 ^ (k + d)
smaller_block d k i t h l =
    let e : t * 2 ^ (k + d) ≡ t * 2 ^ d * 2 ^ k =
      omega (arith, ap (λ (x : ℕ). t * x) (two-pow-add k d)) in
    let same : i ≡ t * 2 ^ d = multiple_between i (t * 2 ^ d) (2 ^ k) (omega arith) (omega arith) in
    omega (arith, ap (λ (x : ℕ). x * 2 ^ k) same)

-- A block of a greater order that contains the buddy contains the whole pair.
greater_block :
    (d k i j : ℕ)
    → i * 2 ^ (suc k + d) ≤ other j * 2 ^ k
    → other j * 2 ^ k < i * 2 ^ (suc k + d) + 2 ^ (suc k + d)
    → (i * 2 ^ (suc k + d) ≤ j * 2 ^ k) × (j * 2 ^ k < i * 2 ^ (suc k + d) + 2 ^ (suc k + d))
greater_block d k i j h l =
    let size : 2 ^ (suc k + d) ≡ 2 * 2 ^ d * 2 ^ k =
      omega (arith, two-pow-add (suc k) d, ap (λ (x : ℕ). x * 2 ^ d) (pow-two-suc k)) in
    let start : i * 2 ^ (suc k + d) ≡ 2 * (i * 2 ^ d) * 2 ^ k =
      omega (arith, ap (λ (x : ℕ). i * x) size) in
    let pair =
      pair_inside (i * 2 ^ d) (2 ^ d) j
        (le_of_mul-le-mul_right {k = 2 ^ k} (omega arith) (two-pow-pos k))
        (lt_of_mul-lt-mul_right (2 ^ k) (omega arith)) in
    (
      omega (arith, mul-le-mul_right (2 ^ k) pair.0),
      omega (arith, mul-le-mul_right (2 ^ k) pair.1, two-pow-pos k),
    )

-- Among aligned blocks that do not overlap, the block that contains the buddy of a block of
-- order `k` begins at the buddy.
pub block_at_buddy :
    (k k' i j : ℕ)
    → i * 2 ^ k' ≤ other j * 2 ^ k
    → other j * 2 ^ k < i * 2 ^ k' + 2 ^ k'
    → (i * 2 ^ k' < j * 2 ^ k → i * 2 ^ k' + 2 ^ k' ≤ j * 2 ^ k)
    → (i * 2 ^ k' ≡ j * 2 ^ k → k' ≡ k)
    → i * 2 ^ k' ≡ other j * 2 ^ k
block_at_buddy k k' i j h l apart same = elim (dec_le k' k) [
  | yes le ↦
      let e : k ≡ k' + (k - k') = omega arith in
      rw e (smaller_block (k - k') k' i (other j) (rw (← e) h) (rw (← e) l))
  | no gt ↦
      let e : k' ≡ suc k + (k' - suc k) = omega arith in
      let inside : (i * 2 ^ k' ≤ j * 2 ^ k) × (j * 2 ^ k < i * 2 ^ k' + 2 ^ k') =
        rw e (greater_block (k' - suc k) k i j (rw (← e) h) (rw (← e) l)) in
      absurd (elim (dec_lt (i * 2 ^ k') (j * 2 ^ k)) [
        | yes lt ↦ omega (arith, apart lt)
        | no ge ↦ omega (arith, same (omega arith))
      ])
]

-- The buddy is the upper half of a block, or the lower.
pub buddy_cases :
    (j k : ℕ)
    → ((other j * 2 ^ k ≡ j * 2 ^ k + 2 ^ k) × (j * 2 ^ k ≡ j / 2 * 2 ^ suc k))
      ⊎ ((j * 2 ^ k ≡ other j * 2 ^ k + 2 ^ k) × (other j * 2 ^ k ≡ j / 2 * 2 ^ suc k))
buddy_cases j k = elim (dec_lt (j % 2) 1) [
  | yes even ↦
      let up : other j ≡ j + 1 = ground arith in
      let twice : j ≡ 2 * (j / 2) = omega arith in
      inl (
        omega (arith, ap (λ (x : ℕ). x * 2 ^ k) up),
        omega (arith, ap (λ (x : ℕ). x * 2 ^ k) twice, ap (λ (x : ℕ). j / 2 * x) (pow-two-suc k)),
      )
  | no odd ↦
      let down : j ≡ other j + 1 = ground arith in
      let twice : other j ≡ 2 * (j / 2) = omega arith in
      inr (
        omega (arith, ap (λ (x : ℕ). x * 2 ^ k) down),
        omega (arith, ap (λ (x : ℕ). x * 2 ^ k) twice, ap (λ (x : ℕ). j / 2 * x) (pow-two-suc k)),
      )
]
