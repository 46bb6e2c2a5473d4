-- ===== src/Pfndb/Storage.antt =====
-- `pfndb_reserve_storage`: the frames of the database itself are taken out of the memory map.
use risky.Base.{
  ℕ, ◌+◌, ◌-◌, ◌/◌, ◌%◌, ◌^◌, ◌≤◌, ◌<◌, ◌≡◌, inl, inr, refl, Bool, true, false, ◌&&◌, ◌||◌, not,
  ltb, arith, none, some, List, [], ◌∷◌, u64, Bool-cases,
}
use risky.Page.{page_size}
use risky.Pfndb.{Entry, pfndb_reserve_storage}
use risky.Pfndb.Mark.{within}
use risky.Pfndb.Init.{offers, any_offers, Fits}

-- Each usable entry begins at a page boundary.
abbrev pub Aligned : List Entry → Type 0
Aligned [] = Unit {0}
Aligned (e ∷ es) = (e.usable ≡ true → e.base % page_size ≡ 0) × Aligned es

-- No frame is offered twice.
abbrev pub Apart : List Entry → Type 0
Apart [] = Unit {0}
Apart (e ∷ es) = ((q : ℕ) → offers e q ≡ true → any_offers es q ≡ false) × Apart es

-- The rest of an entry that gives its front away.
abbrev shrink : ℕ → Entry → Entry
shrink size e = record e { base = u64 (e.base + size); length = e.length - size }

-- The frames of the storage.
abbrev pub stored : (size base q : ℕ) → Bool
stored size base q = within (base / page_size) ((base + size) / page_size) q

-- What a round of the search does.
data Round (size : ℕ) (e : Entry) (es : List Entry) : Type 0 where
  gives :
      (e.usable ≡ true)
      → size ≤ e.length
      → (pfndb_reserve_storage size (e ∷ es) ≡ (some e.base, shrink size e ∷ es))
      → Round size e es
  passes :
      (pfndb_reserve_storage size (e ∷ es)
        ≡ ((pfndb_reserve_storage size es).0, e ∷ (pfndb_reserve_storage size es).1))
      → Round size e es

round : (size : ℕ) (e : Entry) (es : List Entry) → Round size e es
unfolding pfndb_reserve_storage
round size e es = elim (Bool-cases (not e.usable || ltb e.length size)) [
  | inl h ↦ passes (rw h refl)
  | inr h ↦ gives (ground arith) (ground arith) (rw h refl)
]

reserve_none : (size : ℕ) → pfndb_reserve_storage size [] ≡ (none, [])
unfolding pfndb_reserve_storage
reserve_none size = refl

-- No usable entry has `size` bytes.
abbrev pub NoRoom : ℕ → List Entry → Type 0
NoRoom size [] = Unit {0}
NoRoom size (e ∷ es) = (e.usable ≡ true → e.length < size) × NoRoom size es

-- Without room the search finds nothing.
pub reserve-NoRoom :
    (size : ℕ) (es : List Entry) → NoRoom size es → (pfndb_reserve_storage size es).0 ≡ none
reserve-NoRoom size [] full = rw (reserve_none size) refl
reserve-NoRoom size (e ∷ es) full = elim (round size e es) [
  | gives u le is ↦ absurd (omega (arith, full.0 u))
  | passes is ↦ rw is (reserve-NoRoom size es (full.1))
]

pub reserve-Fits : (size : ℕ) (es : List Entry) → Fits es → Fits (pfndb_reserve_storage size es).1
reserve-Fits size [] fits = rw (reserve_none size) tt
reserve-Fits size (e ∷ es) fits = elim (round size e es) [
  | gives u le is ↦ rw is (omega (arith, fits.0), fits.1)
  | passes is ↦ rw is (fits.0, reserve-Fits size es (fits.1))
]

module _ {size : ℕ} (some_size : 0 < size) (whole : size % page_size ≡ 0) where
  shrink_lem :
      (e : Entry) (q : ℕ)
      → e.usable ≡ true
      → size ≤ e.length
      → e.base % page_size ≡ 0
      → e.base + e.length + page_size ≤ 2 ^ 64
      → (offers e q ≡ (stored size e.base q || offers (shrink size e) q))
        × (stored size e.base q ≡ true → offers (shrink size e) q ≡ false)
  shrink_lem e q u le aligned fits =
      let top : u64 (e.base + size) ≡ e.base + size = omega arith in
      let cut : e.base + size + (e.length - size) ≡ e.base + e.length = omega arith in
      rw (top, cut) (ground arith, λ h. ground arith)

  -- For a positive size of whole pages, and a memory map whose usable entries start at page
  -- boundaries, offer no frame twice and have no rounded end that wraps: when the search finds a
  -- region, the frames that the memory map offered are those of the storage and those that it
  -- still offers, and no frame is both.
  pub reserve_storage_lem :
      (es : List Entry) (base q : ℕ)
      → Fits es
      → Aligned es
      → Apart es
      → (pfndb_reserve_storage size es).0 ≡ some base
      → (any_offers es q ≡ (stored size base q || any_offers (pfndb_reserve_storage size es).1 q))
        × ((stored size base q && any_offers (pfndb_reserve_storage size es).1 q) ≡ false)
  reserve_storage_lem [] base q fits aligned apart found = ground (arith, reserve_none size)
  reserve_storage_lem (e ∷ es) base q fits aligned apart found = elim (round size e es) [
    | gives u le is ↦
        let one = shrink_lem e q u le (aligned.0 u) (fits.0) in
        let same : e.base ≡ base = ground (arith, is) in
        rw (is, ← same) (ground (arith, one), ground (arith, one, apart.0 q))
    | passes is ↦
        let rest =
          reserve_storage_lem es base q (fits.1) (aligned.1) (apart.1) (ground (arith, is)) in
        rw is (ground (arith, rest), ground (arith, rest, apart.0 q))
  ]
