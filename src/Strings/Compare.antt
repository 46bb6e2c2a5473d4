-- ===== src/Strings/Compare.antt =====
-- `memcmp` and `strcmp` against the first difference.
use risky.Base.{
  ℕ, zero, suc, ◌+◌, ◌≤◌, ◌<◌, ◌≡◌, ◌≢◌, inl, inr, ap, Bool-cases, ltb, ◌==◌, arith, some,
}
use risky.Strings.{
  Memory, Sign, negative, equal, positive, memcmp_loop, memcmp, strcmp_loop, strcmp,
}

-- The bytes before `n` are the same.
abbrev pub SameBefore : (n s1 s2 : ℕ) → Memory → Type 0
SameBefore n s1 s2 m = (i : ℕ) → i < n → m (s1 + i) ≡ m (s2 + i)

-- What the sign says of the first `n` bytes.
pub data Compared (n s1 s2 : ℕ) (m : Memory) : Sign → Type 0 where
  same : SameBefore n s1 s2 m → Compared n s1 s2 m equal
  below :
      (k : ℕ) → k < n → SameBefore k s1 s2 m → m (s1 + k) < m (s2 + k) → Compared n s1 s2 m negative
  above :
      (k : ℕ) → k < n → SameBefore k s1 s2 m → m (s2 + k) < m (s1 + k) → Compared n s1 s2 m positive

-- A string of `k` bytes stands at `s`, with its NUL.
pub record IsString (s k : ℕ) (m : Memory) : Type 0 where
  pub ends : m (s + k) ≡ 0
  pub inside : (i : ℕ) → i < k → m (s + i) ≢ 0

module _ (s1 s2 : ℕ) (m : Memory) where
  extend : (i : ℕ) → SameBefore i s1 s2 m → m (s1 + i) ≡ m (s2 + i) → SameBefore (i + 1) s1 s2 m
  extend i before here j lt = elim (Bool-cases (j == i)) [
    | inl e ↦ let at : j ≡ i = ground arith in rw at here
    | inr ne ↦ before j (ground arith)
  ]

  memcmp_loop-Compared :
      (count i n : ℕ)
      → i + count ≡ n
      → SameBefore i s1 s2 m
      → Compared n s1 s2 m (memcmp_loop count i s1 s2 m)
  unfolding memcmp_loop
  memcmp_loop-Compared zero i n e before = same (λ j lt. before j (omega arith))
  memcmp_loop-Compared (suc count) i n e before = elim (Bool-cases (m (s1 + i) == m (s2 + i))) [
    | inl eq ↦
        rw (eq, memcmp_loop)
          (memcmp_loop-Compared count (i + 1) n (omega arith) (extend i before (ground arith)))
    | inr ne ↦ rw ne (elim (Bool-cases (ltb (m (s1 + i)) (m (s2 + i)))) [
      | inl lt ↦ rw lt (below i (omega arith) before (ground arith))
      | inr ge ↦ rw ge (above i (omega arith) before (ground arith))
    ])
  ]

  -- `memcmp` gives 0 if the first `n` bytes are the same, and else the order of the two bytes at
  -- the first difference.
  pub memcmp-Compared : (n : ℕ) → Compared n s1 s2 m (memcmp s1 s2 n m)
  unfolding memcmp
  memcmp-Compared n = memcmp_loop-Compared n 0 n (omega arith) (λ i lt. absurd (omega arith))

  strcmp_loop-Compared :
      (rounds i k : ℕ)
      → IsString s1 k m
      → i ≤ k
      → k < i + rounds
      → SameBefore i s1 s2 m
      → (r : Sign) × (strcmp_loop rounds i s1 s2 m ≡ some r) × Compared (k + 1) s1 s2 m r
  unfolding strcmp_loop
  strcmp_loop-Compared zero i k is le lt before = absurd (omega arith)
  strcmp_loop-Compared (suc rounds) i k is le lt before =
      elim (Bool-cases (m (s1 + i) == m (s2 + i))) [
        | inl eq ↦ elim (Bool-cases (m (s1 + i) == 0)) [
          | inl end ↦
              let at : i ≡ k = stops i le (ground arith) in
              (equal, ground arith, same (rw (← at) (extend i before (ground arith))))
          | inr on ↦
              let ne : i ≢ k = λ e. ground (arith, is.ends, ap (λ (x : ℕ). m (s1 + x)) e) in
              let (r, is_r, compared) =
                strcmp_loop-Compared rounds (i + 1) k is (omega arith) (omega arith)
                  (extend i before (ground arith)) in
              (r, ground (arith, is_r), compared)
        ]
        | inr ne ↦ elim (Bool-cases (ltb (m (s1 + i)) (m (s2 + i)))) [
          | inl less ↦ (negative, ground arith, below i (omega arith) before (ground arith))
          | inr more ↦ (positive, ground arith, above i (omega arith) before (ground arith))
        ]
      ]
    where
      stops : (i : ℕ) → i ≤ k → m (s1 + i) ≡ 0 → i ≡ k
      stops i le z = elim (Bool-cases (ltb i k)) [
        | inl lt ↦ absurd (is.inside i (ground arith) z)
        | inr ge ↦ ground arith
      ]

  -- For a string of `k` bytes at the first pointer and more than `k` rounds, `strcmp` returns:
  -- 0 if the strings are the same up to the NUL, and else the order of the two bytes, as unsigned
  -- numbers, at the first difference.
  pub strcmp-Compared :
      (rounds k : ℕ)
      → IsString s1 k m
      → k < rounds
      → (r : Sign) × (strcmp rounds s1 s2 m ≡ some r) × Compared (k + 1) s1 s2 m r
  unfolding strcmp
  strcmp-Compared rounds k is lt =
      strcmp_loop-Compared rounds 0 k is (omega arith) (omega arith) (λ i lt. absurd (omega arith))
