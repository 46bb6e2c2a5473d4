-- ===== src/Pmm/Tiling.antt =====
-- The frames of the database as a tiling by aligned blocks, the first half of what the state of
-- the allocator stands for: `order p` is the order of the block that begins at `p`, if any.
use native.Mathlib.Decide.{dec_lt}
use risky.Base.{
  ℕ, suc, ◌+◌, ◌*◌, ◌^◌, ◌≤◌, ◌<◌, ◌≡◌, refl, ap, ◌∙◌, sym, Option, none, some, arith, ◌==◌, update,
  inl, inr, Bool-cases, eq_self, pow-two-suc,
}
use risky.Pmm.Buddy.{other, block_at_buddy, two-pow-pos}

abbrev pub Orders : Type 0
Orders = ℕ → Option ℕ

-- Every frame up to `max_pfn` lies in one block; a block of order `o` begins at a multiple of
-- `2 ^ o` and ends in the range.
pub record IsTiling (max_pfn : ℕ) (order : Orders) : Type 0 where
  pub order_lt : (p o : ℕ) → order p ≡ some o → o < 10
  pub fits : (p o : ℕ) → order p ≡ some o → p + 2 ^ o ≤ max_pfn + 1
  pub aligned : (p o : ℕ) → order p ≡ some o → (j : ℕ) × (p ≡ j * 2 ^ o)
  pub apart : (p q o o' : ℕ) → order p ≡ some o → order q ≡ some o' → p < q → p + 2 ^ o ≤ q
  pub covered :
      (q : ℕ) → q ≤ max_pfn → (p : ℕ) × (o : ℕ) × (order p ≡ some o) × (p ≤ q) × (q < p + 2 ^ o)

module _ {max_pfn : ℕ} {order : Orders} (t : IsTiling max_pfn order) where
  -- What lies at the buddy of a block, if it is in the range, begins there.
  pub buddy_begins :
      (p o j : ℕ)
      → order p ≡ some o
      → p ≡ j * 2 ^ o
      → other j * 2 ^ o ≤ max_pfn
      → (o' : ℕ) × (order (other j * 2 ^ o) ≡ some o')
  buddy_begins p o j e a inside = go (t.covered (other j * 2 ^ o) inside)
    where
      go :
          ((q : ℕ) × (o' : ℕ) × (order q ≡ some o')
            × (q ≤ other j * 2 ^ o)
            × (other j * 2 ^ o < q + 2 ^ o'))
          → (o' : ℕ) × (order (other j * 2 ^ o) ≡ some o')
      go (q, o', eq, le, lt) =
          let (i, b) = t.aligned q o' eq in
          let here : i * 2 ^ o' ≡ other j * 2 ^ o =
            block_at_buddy o o' i j (omega arith) (omega arith)
              (λ l. omega (arith, t.apart q p o' o eq e (omega arith)))
              (λ s. ground (arith, ap order (b ∙ s ∙ sym a))) in
          (o', rw (← here, ← b) eq)

  -- The first frame of the upper half of a block is no block's beginning.
  pub upper_none : (p o : ℕ) → order p ≡ some (suc o) → order (p + 2 ^ o) ≡ none
  upper_none p o e = go (order (p + 2 ^ o)) refl
    where
      go : (r : Option ℕ) → order (p + 2 ^ o) ≡ r → order (p + 2 ^ o) ≡ none
      go none h = h
      go (some o') h = absurd (
          omega (
            arith,
            t.apart p (p + 2 ^ o) (suc o) o' e h (omega (arith, two-pow-pos o)),
            pow-two-suc o,
            two-pow-pos o,
          ))

-- A block splits into its halves.
abbrev pub split_orders : Orders → ℕ → ℕ → Orders
split_orders order p o = update (update order p (some o)) (p + 2 ^ o) (some o)

-- The two halves of a block become one.
abbrev pub join_orders : Orders → ℕ → ℕ → Orders
join_orders order low o = update (update order (low + 2 ^ o) none) low (some (suc o))

module _ {max_pfn : ℕ} {order : Orders} (t : IsTiling max_pfn order) (p o : ℕ)
    (e : order p ≡ some (suc o)) where
  split_aligned : (q k : ℕ) → split_orders order p o q ≡ some k → (j : ℕ) × (q ≡ j * 2 ^ k)
  split_aligned q k h =
      let (j, a) = t.aligned p (suc o) e in
      let double : p ≡ 2 * j * 2 ^ o = omega (arith, a, ap (λ (x : ℕ). j * x) (pow-two-suc o)) in
      elim (Bool-cases (q == p + 2 ^ o)) [
        | inl upper ↦ let same : k ≡ o = ground arith in (2 * j + 1, rw same (ground arith))
        | inr not_upper ↦ elim (Bool-cases (q == p)) [
          | inl lower ↦ let same : k ≡ o = ground arith in (2 * j, rw same (ground arith))
          | inr not_lower ↦ t.aligned q k (ground arith)
        ]
      ]

  split_covered :
      (q : ℕ)
      → q ≤ max_pfn
      → (r : ℕ) × (k : ℕ) × (split_orders order p o r ≡ some k) × (r ≤ q) × (q < r + 2 ^ k)
  split_covered q le =
      let (r, k, h, le', lt) = t.covered q le in
      elim (dec_lt q p) [
        | yes before ↦ (r, k, ground (arith, two-pow-pos o), le', lt)
        | no from ↦ elim (dec_lt q (p + 2 ^ o)) [
          | yes low ↦ (p, o, ground (arith, two-pow-pos o), omega arith, low)
          | no above ↦ elim (dec_lt q (p + 2 ^ suc o)) [
            | yes high ↦ (p + 2 ^ o, o, ground arith, omega arith, omega (arith, pow-two-suc o))
            | no after ↦ (
              r,
              k,
              ground (arith, t.apart r p k (suc o) h e, pow-two-suc o, upper_none t p o e, h, e),
              le',
              lt,
            )
          ]
        ]
      ]

  pub split-IsTiling : IsTiling max_pfn (split_orders order p o)
  split-IsTiling = record {
    order_lt = λ q k h. ground (arith, t.order_lt q k, t.order_lt p (suc o));
    fits = λ q k h. ground (arith, t.fits q k, t.fits p (suc o), pow-two-suc o);
    aligned = split_aligned;
    apart = λ q r k l h g lt. ground (
      arith,
      t.apart q r k l,
      t.apart p r (suc o) l,
      t.apart q p k (suc o),
      t.apart p q (suc o) k,
      pow-two-suc o,
      two-pow-pos o,
      h,
      g,
    );
    covered = split_covered;
  }

module _ {max_pfn : ℕ} {order : Orders} (t : IsTiling max_pfn order) (low o : ℕ)
    (e : order low ≡ some o) (f : order (low + 2 ^ o) ≡ some o) (room : o + 1 < 10)
    (even : (j : ℕ) × (low ≡ j * 2 ^ suc o)) where
  join_aligned : (q k : ℕ) → join_orders order low o q ≡ some k → (j : ℕ) × (q ≡ j * 2 ^ k)
  join_aligned q k h = elim (Bool-cases (q == low)) [
    | inl here ↦ let same : k ≡ suc o = ground arith in (even.0, rw same (ground (arith, even.1)))
    | inr not_low ↦ t.aligned q k (ground arith)
  ]

  join_covered :
      (q : ℕ)
      → q ≤ max_pfn
      → (r : ℕ) × (k : ℕ) × (join_orders order low o r ≡ some k) × (r ≤ q) × (q < r + 2 ^ k)
  join_covered q le =
      let (r, k, h, le', lt) = t.covered q le in
      elim (dec_lt q low) [
        | yes before ↦ (r, k, ground (arith, two-pow-pos o), le', lt)
        | no from ↦ elim (dec_lt q (low + 2 ^ suc o)) [
          | yes inside ↦ (low, suc o, ground (arith, eq_self low), omega arith, inside)
          | no after ↦ (
            r,
            k,
            ground (
              arith,
              t.apart r low k o h e,
              t.apart r (low + 2 ^ o) k o h f,
              pow-two-suc o,
              two-pow-pos o,
              h,
              e,
              f,
            ),
            le',
            lt,
          )
        ]
      ]

  pub join-IsTiling : IsTiling max_pfn (join_orders order low o)
  join-IsTiling = record {
    order_lt = λ q k h. ground (arith, t.order_lt q k);
    fits = λ q k h. ground (arith, t.fits q k, t.fits (low + 2 ^ o) o, pow-two-suc o);
    aligned = join_aligned;
    apart = λ q r k l h g lt. ground (
      arith,
      t.apart q r k l,
      t.apart low r o l,
      t.apart (low + 2 ^ o) r o l,
      t.apart r (low + 2 ^ o) l o,
      t.apart q low k o,
      pow-two-suc o,
      two-pow-pos o,
      h,
      g,
    );
    covered = join_covered;
  }
