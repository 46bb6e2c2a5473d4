-- ===== src/Paging/Trail.antt =====
-- The indexes that lead to a table, and the offset of an address in a block.
use native.Mathlib.Decide.{dec_lt}
use native.Mathlib.Nat.{mul-le-mul_right, div-add-mod', div-div-eq-div-mul}
use risky.Base.{
  ℕ, zero, suc, ◌+◌, ◌*◌, ◌/◌, ◌%◌, ◌^◌, ◌≤◌, ◌<◌, ◌≡◌, ◌≢◌, inl, inr, refl, ap, sym, ◌∙◌, true,
  false, List, [], ◌∷◌, ◌==◌, arith, Bool-cases, pow-two-suc,
}
use risky.Page.{page_size}
use risky.Paging.{paging_level_index, paging_level_block_size}
use risky.Paging.Translate.{same_page}

-- The indexes of an address at the `depth` levels above `level`, from below.
abbrev pub trail : (virt depth level : ℕ) → List ℕ
trail virt zero level = []
trail virt (suc depth) level = paging_level_index virt (suc level) ∷ trail virt depth (suc level)

abbrev first : List ℕ → ℕ
first [] = 0
first (x ∷ xs) = x

abbrev rest : List ℕ → List ℕ
rest [] = []
rest (x ∷ xs) = xs

trail_index :
    (virt virt' depth level m : ℕ)
    → trail virt depth level ≡ trail virt' depth level
    → level < m
    → m ≤ level + depth
    → paging_level_index virt m ≡ paging_level_index virt' m
trail_index virt virt' zero level m e lt le = absurd (omega arith)
trail_index virt virt' (suc depth) level m e lt le = elim (Bool-cases (m == suc level)) [
  | inl at ↦ let here : m ≡ suc level = ground arith in rw here (ap first e)
  | inr off ↦ trail_index virt virt' depth (suc level) m (ap rest e) (ground arith) (omega arith)
]

same_page_of :
    (count virt virt' : ℕ)
    → ((m : ℕ) → m < count → paging_level_index virt m ≡ paging_level_index virt' m)
    → same_page count virt virt' ≡ true
unfolding same_page
same_page_of zero virt virt' h = refl
same_page_of (suc count) virt virt' h =
    ground (arith, h count (omega arith), same_page_of count virt virt' (λ m lt. h m (omega arith)))

pub same_page_index :
    (count virt virt' m : ℕ)
    → same_page count virt virt' ≡ true
    → m < count
    → paging_level_index virt m ≡ paging_level_index virt' m
unfolding same_page
same_page_index zero virt virt' m h lt = absurd (omega arith)
same_page_index (suc count) virt virt' m h lt = elim (Bool-cases (m == count)) [
  | inl at ↦ let here : m ≡ count = ground arith in rw here (ground arith)
  | inr off ↦ same_page_index count virt virt' m (ground arith) (ground arith)
]

-- Fewer levels to agree on.
pub same_page_fewer :
    (count fewer virt virt' : ℕ)
    → same_page count virt virt' ≡ true
    → fewer ≤ count
    → same_page fewer virt virt' ≡ true
same_page_fewer count fewer virt virt' h le =
    same_page_of fewer virt virt' (λ m lt. same_page_index count virt virt' m h (omega arith))

-- The indexes at the table of the lowest level and above it make the page.
pub trail-same_page :
    (top virt virt' : ℕ)
    → paging_level_index virt 0 ≡ paging_level_index virt' 0
    → trail virt top 0 ≡ trail virt' top 0
    → same_page (suc top) virt virt' ≡ true
trail-same_page top virt virt' low e = same_page_of (suc top) virt virt' go
  where
    go : (m : ℕ) → m < suc top → paging_level_index virt m ≡ paging_level_index virt' m
    go zero lt = low
    go (suc m) lt = trail_index virt virt' top 0 (suc m) e (omega arith) (omega arith)

-- The digits of an address to the base 512.
mod_block : (x b : ℕ) → x % (b * 512) ≡ x / b % 512 * b + x % b
mod_block x b = omega (
  arith,
  div-add-mod' x b,
  div-add-mod' (x / b) 512,
  div-add-mod' x (b * 512),
  div-div-eq-div-mul x b 512,
  ap (λ (q : ℕ). q * (b * 512)) (div-div-eq-div-mul x b 512),
  ap (λ (q : ℕ). q * b) (div-add-mod' (x / b) 512),
)

-- Twice, eight times, and 512 times.
pow_double : (a b : ℕ) → b ≡ suc a → 2 ^ b ≡ 2 ^ a * 2
pow_double a b e = rw e (pow-two-suc a)

pow_eight : (a b : ℕ) → b ≡ a + 3 → 2 ^ b ≡ 2 ^ a * 8
pow_eight a b e = omega (
  arith,
  pow_double (a + 2) b (omega arith),
  pow_double (a + 1) (a + 2) (omega arith),
  pow_double a (a + 1) (omega arith),
)

block_suc : (level : ℕ) → paging_level_block_size (suc level) ≡ paging_level_block_size level * 512
block_suc level = omega (
  arith,
  pow_eight (12 + level * 9 + 6) (12 + suc level * 9) (omega arith),
  pow_eight (12 + level * 9 + 3) (12 + level * 9 + 6) (omega arith),
  pow_eight (12 + level * 9) (12 + level * 9 + 3) (omega arith),
)

-- In the page of an address at a page boundary, only the offset in the page is added.
pub block_offset :
    (level virt virt' : ℕ)
    → virt % page_size ≡ 0
    → same_page level virt virt' ≡ true
    → virt' % paging_level_block_size level
      ≡ virt % paging_level_block_size level + virt' % page_size
block_offset zero virt virt' aligned same = omega arith
block_offset (suc level) virt virt' aligned same =
    let index = same_page_index (suc level) virt virt' level same (omega arith) in
    let lower =
      block_offset level virt virt' aligned
        (same_page_fewer (suc level) level virt virt' same (omega arith)) in
    rw block_suc (
      mod_block virt' (2 ^ (12 + level * 9))
      ∙ rw (lower, ← index) (omega (arith, mod_block virt (2 ^ (12 + level * 9)))))

-- The addresses of a frame are in one page.
frame_index :
    (virt within level : ℕ)
    → virt % page_size ≡ 0
    → within < page_size
    → paging_level_index virt level ≡ paging_level_index (virt + within) level
frame_index virt within level aligned lt =
    let block : 2 ^ (12 + level * 9) ≡ page_size * 2 ^ (level * 9) = omega (
      arith,
      pow_eight (level * 9) (level * 9 + 3) (omega arith),
      pow_eight (level * 9 + 3) (level * 9 + 6) (omega arith),
      pow_eight (level * 9 + 6) (level * 9 + 9) (omega arith),
      pow_eight (level * 9 + 9) (12 + level * 9) (omega arith),
    ) in
    let same : virt / page_size ≡ (virt + within) / page_size = omega arith in
    rw block (
      ap (λ (n : ℕ). n % 512)
        (sym (div-div-eq-div-mul virt page_size (2 ^ (level * 9)))
          ∙ ap (λ (n : ℕ). n / 2 ^ (level * 9)) same
          ∙ div-div-eq-div-mul (virt + within) page_size (2 ^ (level * 9))))

pub same_page_within :
    (count virt within : ℕ)
    → virt % page_size ≡ 0
    → within < page_size
    → same_page count virt (virt + within) ≡ true
same_page_within count virt within aligned lt =
    same_page_of count virt (virt + within) (λ m k. frame_index virt within m aligned lt)

-- Going on by less than a modulus changes the remainder.
mod_apart : (a x b : ℕ) → 0 < x → x < b → (a + x) % b ≢ a % b
mod_apart a x b pos lt e =
    let here = div-add-mod' a b in
    let there = div-add-mod' (a + x) b in
    elim (dec_lt (a / b) ((a + x) / b)) [
      | yes more ↦
          let step : suc (a / b) * b ≤ (a + x) / b * b = mul-le-mul_right b more in omega arith
      | no less ↦
          let step : (a + x) / b * b ≤ a / b * b = mul-le-mul_right b (omega arith) in omega arith
    ]

same_page_trans :
    (count a b c : ℕ)
    → same_page count a b ≡ true
    → same_page count b c ≡ true
    → same_page count a c ≡ true
same_page_trans count a b c h k =
    same_page_of count a c
      (λ m lt. same_page_index count a b m h lt ∙ same_page_index count b c m k lt)

-- An address of a later page of a range that is not larger than the address space.
pub pages_apart :
    (count virt x virt' : ℕ)
    → virt % page_size ≡ 0
    → page_size ≤ x
    → x < paging_level_block_size count
    → same_page count virt virt' ≡ true
    → same_page count (virt + x) virt' ≡ false
pages_apart count virt x virt' aligned later lt same =
    elim (Bool-cases (same_page count (virt + x) virt')) [
      | inr other ↦ other
      | inl both ↦
          let start = x / page_size * page_size in
          let start_aligned : (virt + start) % page_size ≡ 0 = omega arith in
          let whole : virt + start + x % page_size ≡ virt + x = omega arith in
          let within =
            rw whole at
              (same_page_within count (virt + start) (x % page_size) start_aligned (omega arith)) in
          absurd (
            mod_apart virt start (2 ^ (12 + count * 9)) (omega arith) (omega arith) (
              omega (
                arith,
                block_offset count virt virt' aligned same,
                block_offset count (virt + start) virt' start_aligned
                    (same_page_trans count (virt + start) (virt + x) virt' within both),
              )))
    ]
