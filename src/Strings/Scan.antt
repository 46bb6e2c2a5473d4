-- ===== src/Strings/Scan.antt =====
-- `strlen`, `strnlen` and `strchr`: where a scan of a string stops.
use risky.Base.{
  ℕ, zero, suc, ◌+◌, ◌≤◌, ◌<◌, ◌≡◌, ◌≢◌, inl, inr, ap, true, false, Bool-cases, ltb, ◌==◌, arith,
  Option, none, some, if◌then◌else◌, u8,
}
use risky.Strings.{Memory, strlen_loop, strlen, strnlen_loop, strnlen, strchr_loop, strchr}
use risky.Strings.Compare.{IsString}

-- The number of bytes before the NUL, but at most `maxlen`.
abbrev pub shorter : (k maxlen : ℕ) → ℕ
shorter k maxlen = if ltb k maxlen then k else maxlen

module _ (s k : ℕ) (m : Memory) (is : IsString s k m) where
  on_before : (i : ℕ) → i < k → (m (s + i) == 0) ≡ false
  on_before i lt = ground (arith, is.inside i lt)

  off_at : (i : ℕ) → i ≡ k → (m (s + i) == 0) ≡ true
  off_at i e = ground (arith, is.ends, ap (λ (x : ℕ). m (s + x)) e)

  strlen_loop_lem : (rounds i : ℕ) → i ≤ k → k < i + rounds → strlen_loop rounds i s m ≡ some k
  unfolding strlen_loop
  strlen_loop_lem zero i le lt = absurd (omega arith)
  strlen_loop_lem (suc rounds) i le lt = elim (Bool-cases (i == k)) [
    | inl e ↦ ground (arith, off_at i (ground arith))
    | inr ne ↦ ground (
      arith,
      on_before i (ground arith),
      strlen_loop_lem rounds (i + 1) (ground arith) (omega arith),
    )
  ]

  strnlen_loop_lem :
      (count i maxlen : ℕ)
      → i ≤ k
      → i + count ≡ maxlen
      → strnlen_loop count i s m ≡ shorter k maxlen
  unfolding strnlen_loop
  strnlen_loop_lem zero i maxlen le e = ground arith
  strnlen_loop_lem (suc count) i maxlen le e = elim (Bool-cases (i == k)) [
    | inl at ↦ ground (arith, off_at i (ground arith))
    | inr ne ↦ ground (
      arith,
      on_before i (ground arith),
      strnlen_loop_lem count (i + 1) maxlen (ground arith) (omega arith),
    )
  ]

  -- For a string of `k` bytes and more than `k` rounds, `strlen` returns `k`, and `strnlen`
  -- returns the smaller of `k` and its bound.
  pub strlen_lem :
      (rounds maxlen : ℕ)
      → k < rounds
      → (strlen rounds s m ≡ some k) × (strnlen s maxlen m ≡ shorter k maxlen)
  unfolding strlen strnlen
  strlen_lem rounds maxlen lt = (
    strlen_loop_lem rounds 0 (omega arith) (omega arith),
    strnlen_loop_lem maxlen 0 maxlen (omega arith) (omega arith),
  )

-- The pointer to the first byte that is `needle`, among the `k` bytes of the string and its NUL.
pub data Found (s k needle : ℕ) (m : Memory) : Option ℕ → Type 0 where
  first :
      (i : ℕ)
      → i ≤ k
      → m (s + i) ≡ needle
      → ((j : ℕ) → j < i → m (s + j) ≢ needle)
      → Found s k needle m (some (s + i))
  absent : ((j : ℕ) → j ≤ k → m (s + j) ≢ needle) → Found s k needle m none

module _ (s k needle : ℕ) (m : Memory) (is : IsString s k m) where
  strchr_loop-Found :
      (rounds i : ℕ)
      → i ≤ k
      → k < i + rounds
      → ((j : ℕ) → j < i → m (s + j) ≢ needle)
      → (r : Option ℕ) × (strchr_loop rounds (s + i) needle m ≡ some r) × Found s k needle m r
  unfolding strchr_loop
  strchr_loop-Found zero i le lt before = absurd (omega arith)
  strchr_loop-Found (suc rounds) i le lt before = elim (Bool-cases (m (s + i) == needle)) [
    | inl eq ↦ (some (s + i), ground arith, first i le (ground arith) before)
    | inr ne ↦ elim (Bool-cases (m (s + i) == 0)) [
      | inl end ↦ (none, ground arith, absent (λ j to. past j (stops i le (ground arith)) to ne))
      | inr on ↦
          let less : i ≢ k = λ e. ground (arith, is.ends, ap (λ (x : ℕ). m (s + x)) e) in
          let next : s + i + 1 ≡ s + (i + 1) = omega arith in
          let (r, is_r, found) =
            strchr_loop-Found rounds (i + 1) (omega arith) (omega arith)
              (λ j to. up_to j i before ne (omega arith)) in
          (r, ground (arith, is_r, ap (λ (x : ℕ). strchr_loop rounds x needle m) next), found)
    ]
  ]
    where
      up_to :
          (j i : ℕ)
          → ((j : ℕ) → j < i → m (s + j) ≢ needle)
          → (m (s + i) == needle) ≡ false
          → j ≤ i
          → m (s + j) ≢ needle
      up_to j i before ne le = elim (Bool-cases (j == i)) [
        | inl e ↦ let at : j ≡ i = ground arith in rw at (λ h. ground arith)
        | inr less ↦ before j (ground arith)
      ]

      stops : (i : ℕ) → i ≤ k → m (s + i) ≡ 0 → i ≡ k
      stops i le z = elim (Bool-cases (ltb i k)) [
        | inl lt ↦ absurd (is.inside i (ground arith) z)
        | inr ge ↦ ground arith
      ]

      past : (j : ℕ) → i ≡ k → j ≤ k → (m (s + i) == needle) ≡ false → m (s + j) ≢ needle
      past j at to ne = up_to j i before ne (omega arith)

-- For a string of `k` bytes and more than `k` rounds, `strchr` returns: the pointer to the first
-- byte that is the low byte of `c`, the NUL included, or `NULL` if there is none.
pub strchr-Found :
    (s k c rounds : ℕ) (m : Memory)
    → IsString s k m
    → k < rounds
    → (r : Option ℕ) × (strchr rounds s c m ≡ some r) × Found s k (u8 c) m r
unfolding strchr
strchr-Found s k c rounds m is lt =
    let none_before : (j : ℕ) → j < 0 → m (s + j) ≢ u8 c = λ j lt. absurd (omega arith) in
    let here : s + 0 ≡ s = omega arith in
    rw here at (strchr_loop-Found s k (u8 c) m is rounds 0 (omega arith) (omega arith) none_before)
