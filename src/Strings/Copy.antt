-- ===== src/Strings/Copy.antt =====
-- `memcpy`, `memmove` and `memset`: what every byte of the memory is afterwards.
use risky.Base.{
  ℕ, zero, suc, ◌+◌, ◌-◌, ◌≤◌, ◌≡◌, ◌⊎◌, inl, inr, refl, ap, Bool, ◌&&◌, leb, ltb, ◌==◌,
  if◌then◌else◌, u8, update, arith, Bool-cases,
}
use risky.Strings.{Memory, memcpy_loop, memset_loop, memset, memmove_backward, memmove}

-- The addresses from `start` up to `stop`, without `stop`.
abbrev pub between : (start stop q : ℕ) → Bool
between start stop q = leb start q && ltb q stop

-- The bytes from `dest` on are those that were at `src`, `n` of them.
abbrev pub copied : (dest src n : ℕ) → Memory → Memory
copied dest src n m q = if between dest (dest + n) q then m (src + (q - dest)) else m q

module _ (dest src q : ℕ) where
  forward_lem :
      (count i : ℕ) (m : Memory)
      → (dest ≤ src) ⊎ (src + i + count ≤ dest)
      → memcpy_loop count i dest src m q
        ≡ (if between (dest + i) (dest + i + count) q then m (src + (q - dest)) else m q)
  unfolding memcpy_loop
  forward_lem zero i m apart = ground arith
  forward_lem (suc count) i m apart =
      let rest = forward_lem count (i + 1) (update m (dest + i) (m (src + i))) (ground arith) in
      elim (Bool-cases (q == dest + i)) [
        | inl here ↦
            let same : src + (q - dest) ≡ src + i = ground arith in ground (arith, rest, ap m same)
        | inr other ↦ ground (arith, rest)
      ]

  backward_lem :
      (i : ℕ) (m : Memory) → src ≤ dest → memmove_backward i dest src m q ≡ copied dest src i m q
  unfolding memmove_backward
  backward_lem zero m le = ground arith
  backward_lem (suc i) m le =
      let rest = backward_lem i (update m (dest + i) (m (src + i))) le in
      elim (Bool-cases (q == dest + i)) [
        | inl here ↦
            let same : src + (q - dest) ≡ src + i = ground arith in ground (arith, rest, ap m same)
        | inr other ↦ ground (arith, rest)
      ]

  fill_lem :
      (c count i : ℕ) (m : Memory)
      → memset_loop count i dest c m q
        ≡ (if between (dest + i) (dest + i + count) q then u8 c else m q)
  unfolding memset_loop
  fill_lem c zero i m = ground arith
  fill_lem c (suc count) i m = ground (arith, fill_lem c count (i + 1) (update m (dest + i) (u8 c)))

  -- `memmove` returns its destination; the `n` bytes from there on are those of the source before
  -- the call, however the two overlap, and all other bytes stay.
  pub memmove_lem :
      (n : ℕ) (m : Memory)
      → ((memmove dest src n m).0 ≡ dest) × ((memmove dest src n m).1 q ≡ copied dest src n m q)
  unfolding memmove
  memmove_lem n m = elim (Bool-cases (ltb dest src)) [
    | inl up ↦ (ground arith, ground (arith, forward_lem n 0 m (inl (ground arith))))
    | inr not_up ↦ elim (Bool-cases (ltb src dest)) [
      | inl down ↦ (ground arith, ground (arith, backward_lem n m (ground arith)))
      | inr stays ↦ (ground arith, ground (arith, at_rest (ground arith)))
    ]
  ]
    where
      at_rest : src ≡ dest → copied dest src n m q ≡ m q
      at_rest e = elim (Bool-cases (leb dest q)) [
        | inl le ↦ let same : src + (q - dest) ≡ q = ground arith in ground (arith, ap m same)
        | inr lt ↦ ground arith
      ]

  -- `memset` returns its pointer, sets `n` bytes from there on to the low byte of `c`, and leaves
  -- all others as they are.
  memset_lem :
      (c n : ℕ) (m : Memory)
      → ((memset dest c n m).0 ≡ dest)
        × ((memset dest c n m).1 q ≡ (if between dest (dest + n) q then u8 c else m q))
  unfolding memset
  memset_lem c n m = (refl, ground (arith, fill_lem c n 0 m))
