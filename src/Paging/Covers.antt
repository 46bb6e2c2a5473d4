-- ===== src/Paging/Covers.antt =====
-- Which entries `paging_entry_covers` accepts and which ones `map_leaf` writes, as the processor
-- reads them.
use native.Mathlib.Nat.{pow-le-pow_right, mod-lt}
use native.Mathlib.Decide.{dec_lt}
use mathlib.Core.Bool.{true≢false}
use risky.Base.{
  ℕ, ◌+◌, ◌*◌, ◌/◌, ◌%◌, ◌^◌, ◌<◌, ◌≤◌, ◌≡◌, refl, ap, sym, ◌∙◌, Bool, true, false, not, ◌&&◌, ◌||◌,
  ◌==◌, if◌then◌else◌, arith, bit_and, bit_or, bit_and_nibble, bit_or-mul_pow, u64,
}
use risky.Page.{page_size}
use risky.Paging.{
  paging_leaf_flags, paging_entry_covers, has_bits, flag_read, flag_write, flag_exec, flag_global,
  paging_level_block_size, paging_pte_to_phys, pte_v, rwx,
}
use risky.Pmm.Buddy.{two-pow-pos}
use risky.Paging.Space.{IsPlain}
use risky.Paging.Translate.{is_valid, rights, frame_address, is_fault, is_invalid}

-- The flags ask for one of reading, writing and executing.
abbrev pub asks : ℕ → Bool
asks flags = not (flags % 8 == 0)

-- The entry lets the processor do what the flags ask for.
abbrev pub grants : (entry flags : ℕ) → Bool
grants entry flags =
    (flags % 2 == 0 || entry / 2 % 2 == 1)
    && (flags / 2 % 2 == 0 || (entry / 2 % 2 == 1 && entry / 4 % 2 == 1))
    && (flags / 4 % 2 == 0 || entry / 8 % 2 == 1)

-- `paging_leaf_flags` by the bits that are asked for.
abbrev bits_of : (r w x g : Bool) → ℕ
bits_of r w x g =
    65
    + (if r || w then 2 else 0)
    + (if w then 132 else 0)
    + (if x then 8 else 0)
    + (if g then 32 else 0)

has_bits_read : (flags : ℕ) → has_bits flags flag_read ≡ not (flags % 2 == 0)
has_bits_read flags = ground (arith, bit_and_nibble flags 1)

has_bits_write : (flags : ℕ) → has_bits flags flag_write ≡ not (flags / 2 % 2 == 0)
has_bits_write flags = ground (arith, bit_and_nibble flags 2)

has_bits_exec : (flags : ℕ) → has_bits flags flag_exec ≡ not (flags / 4 % 2 == 0)
has_bits_exec flags = ground (arith, bit_and_nibble flags 4)

leaf_flags_bits :
    (flags : ℕ)
    → paging_leaf_flags flags
      ≡ bits_of
          (not (flags % 2 == 0))
          (not (flags / 2 % 2 == 0))
          (not (flags / 4 % 2 == 0))
          (has_bits flags flag_global)
unfolding paging_leaf_flags
leaf_flags_bits flags =
    rw (has_bits_read flags, has_bits_write flags, has_bits_exec flags)
      (go (not (flags % 2 == 0)) (not (flags / 2 % 2 == 0)) (not (flags / 4 % 2 == 0))
        (has_bits flags flag_global))
  where
    go :
        (r w x g : Bool)
        → (let pte = bit_or 1 64 in
            let pte1 = if r then bit_or pte 2 else pte in
            let pte2 = if w then bit_or pte1 (bit_or (bit_or 2 4) 128) else pte1 in
            let pte3 = if x then bit_or pte2 8 else pte2 in if g then bit_or pte3 32 else pte3)
          ≡ bits_of r w x g
    go true true true true = refl
    go true true true false = refl
    go true true false true = refl
    go true true false false = refl
    go true false true true = refl
    go true false true false = refl
    go true false false true = refl
    go true false false false = refl
    go false true true true = refl
    go false true true false = refl
    go false true false true = refl
    go false true false false = refl
    go false false true true = refl
    go false false true false = refl
    go false false false true = refl
    go false false false false = refl

-- What the lowest bits of an entry for the flags say.
leaf_flags_lem :
    (flags : ℕ)
    → asks flags ≡ true
    → (paging_leaf_flags flags < 1024)
      × (is_valid (paging_leaf_flags flags) ≡ true)
      × ((rights (paging_leaf_flags flags) == 0) ≡ false)
      × (is_fault 0 (paging_leaf_flags flags) ≡ false)
      × (grants (paging_leaf_flags flags) flags ≡ true)
leaf_flags_lem flags h = ground (arith, leaf_flags_bits flags)

-- The entry, at its level, takes `virt` to `phys` and grants what the flags ask for.
pub record Lands (level entry virt phys flags : ℕ) : Type 0 where
  pub valid : is_valid entry ≡ true
  pub leaf : (rights entry == 0) ≡ false
  pub plain : IsPlain level entry
  pub granted : grants entry flags ≡ true
  pub address : frame_address entry + virt % paging_level_block_size level ≡ phys

-- A multiple of 1024 does not change what the lowest bits say.
low_bits :
    (n f flags : ℕ)
    → ((n * 2 ^ 10 + f) % 2 ≡ f % 2)
      × (rights (n * 2 ^ 10 + f) ≡ rights f)
      × (grants (n * 2 ^ 10 + f) flags ≡ grants f flags)
low_bits n f flags =
    let r : (n * 2 ^ 10 + f) / 2 % 2 ≡ f / 2 % 2 = omega arith in
    let w : (n * 2 ^ 10 + f) / 4 % 2 ≡ f / 4 % 2 = omega arith in
    let x : (n * 2 ^ 10 + f) / 8 % 2 ≡ f / 8 % 2 = omega arith in
    (omega arith, omega arith, rw (r, w, x) refl)

-- The entry that `map_leaf` writes.
abbrev pub leaf_entry : (phys flags : ℕ) → ℕ
leaf_entry phys flags = bit_or (u64 (phys / page_size * 2 ^ 10)) (paging_leaf_flags flags)

pub written-Lands :
    (virt phys flags : ℕ)
    → asks flags ≡ true
    → virt % page_size ≡ 0
    → phys % page_size ≡ 0
    → phys < 2 ^ 56
    → Lands 0 (leaf_entry phys flags) virt phys flags
written-Lands virt phys flags asked v_aligned p_aligned small =
    let (below, valid, leaf, fault, granted) = leaf_flags_lem flags asked in
    let field : u64 (phys / page_size * 2 ^ 10) ≡ phys / page_size * 2 ^ 10 = omega arith in
    let sum = bit_or-mul_pow 10 (phys / page_size) (paging_leaf_flags flags) below in
    let (digit, same_rights, same_grants) =
      low_bits (phys / page_size) (paging_leaf_flags flags) flags in
    rw (field, sum)
      (record {
        valid = ap (λ (t : ℕ). t == 1) digit ∙ valid;
        leaf = ap (λ (t : ℕ). t == 0) same_rights ∙ leaf;
        plain = record {
          entry_lt = omega (arith, below);
          no_fault = λ _. ground (arith, same_rights, fault);
        };
        granted = same_grants ∙ granted;
        address = omega (arith, below);
      })

covers_parts :
    (entry virt phys flags level : ℕ)
    → paging_entry_covers entry virt phys flags level ≡ true
    → ((bit_and entry pte_v == 0) ≡ false)
      × (u64 (paging_pte_to_phys entry + virt % paging_level_block_size level) ≡ phys)
      × (bit_and entry (bit_and (paging_leaf_flags flags) rwx)
          ≡ bit_and (paging_leaf_flags flags) rwx)
unfolding paging_entry_covers
covers_parts entry virt phys flags level h = (ground arith, ground arith, ground arith)

bit_and-rwx : (n : ℕ) → bit_and n rwx ≡ rights n * 2
bit_and-rwx n = omega (arith, bit_and_nibble n 14)

more_rights :
    (e f : ℕ)
    → (f / 2 % 2 ≡ 1 → e / 2 % 2 ≡ 1)
    → (f / 4 % 2 ≡ 1 → e / 4 % 2 ≡ 1)
    → (f / 8 % 2 ≡ 1 → e / 8 % 2 ≡ 1)
    → (rights f == 0) ≡ false
    → (rights e == 0) ≡ false
more_rights e f r w x h = elim (dec_lt 0 (f / 2 % 2)) [
  | yes a ↦ ground (arith, r (omega arith))
  | no a ↦ elim (dec_lt 0 (f / 4 % 2)) [
    | yes b ↦ ground (arith, w (omega arith))
    | no b ↦ ground (arith, x (ground arith))
  ]
]

-- `d` is the bit of the flags that asks for the bit `b`.
asked_bit : (d b b' : ℕ) → (b ≡ 1 → b' ≡ 1) → (d == 0 || b == 1) ≡ true → (d == 0 || b' == 1) ≡ true
asked_bit d b b' h k = ground arith

asked_bits :
    (d b b' c c' : ℕ)
    → (b ≡ 1 → b' ≡ 1)
    → (c ≡ 1 → c' ≡ 1)
    → (d == 0 || (b == 1 && c == 1)) ≡ true
    → (d == 0 || (b' == 1 && c' == 1)) ≡ true
asked_bits d b b' c c' h k m = ground arith

&&_parts : (a b c : Bool) → (a && b && c) ≡ true → (a ≡ true) × (b ≡ true) × (c ≡ true)
&&_parts true true true h = (refl, refl, refl)
&&_parts true true false h = absurd (true≢false (sym h))
&&_parts true false c h = absurd (true≢false (sym h))
&&_parts false b c h = absurd (true≢false (sym h))

more_grants :
    (e f flags : ℕ)
    → (f / 2 % 2 ≡ 1 → e / 2 % 2 ≡ 1)
    → (f / 4 % 2 ≡ 1 → e / 4 % 2 ≡ 1)
    → (f / 8 % 2 ≡ 1 → e / 8 % 2 ≡ 1)
    → grants f flags ≡ true
    → grants e flags ≡ true
more_grants e f flags r w x h =
    let (h1, h2, h3) = &&_parts _ _ _ h in
    rw
      (
        asked_bit (flags % 2) _ _ r h1,
        asked_bits (flags / 2 % 2) _ _ _ _ r w h2,
        asked_bit (flags / 4 % 2) _ _ x h3,
      )
      refl

-- An entry that has the bits that are wanted is a leaf that grants what they grant.
covers_granted :
    (entry flags : ℕ)
    → asks flags ≡ true
    → bit_and entry (bit_and (paging_leaf_flags flags) rwx) ≡ bit_and (paging_leaf_flags flags) rwx
    → ((rights entry == 0) ≡ false) × (grants entry flags ≡ true)
covers_granted entry flags asked h =
    let (below, valid, leaf, fault, granted) = leaf_flags_lem flags asked in
    let f = paging_leaf_flags flags in
    let whole : bit_and entry (rights f * 2) ≡ rights f * 2 = rw bit_and-rwx at h in
    let digits = bit_and_nibble entry (rights f * 2) (omega arith) in
    let r : f / 2 % 2 ≡ 1 → entry / 2 % 2 ≡ 1 = λ b. omega arith in
    let w : f / 4 % 2 ≡ 1 → entry / 4 % 2 ≡ 1 = λ b. omega arith in
    let x : f / 8 % 2 ≡ 1 → entry / 8 % 2 ≡ 1 = λ b. omega arith in
    (more_rights entry f r w x leaf, more_grants entry f flags r w x granted)

pub covers-Lands :
    (entry virt phys flags level : ℕ)
    → asks flags ≡ true
    → level < 5
    → IsPlain level entry
    → paging_entry_covers entry virt phys flags level ≡ true
    → Lands level entry virt phys flags
covers-Lands entry virt phys flags level asked lt plain h =
    let (valid, mapped, want) = covers_parts entry virt phys flags level h in
    let (leaf, granted) = covers_granted entry flags asked want in
    let block_le : 2 ^ (12 + level * 9) ≤ 2 ^ 48 =
      pow-le-pow_right {n = 2} (omega arith) {i = 12 + level * 9} {j = 48} (omega arith) in
    let block_pos : 0 < 2 ^ (12 + level * 9) = two-pow-pos (12 + level * 9) in
    let offset_lt : virt % 2 ^ (12 + level * 9) < 2 ^ (12 + level * 9) = mod-lt virt block_pos in
    record {
      valid = ground (arith, is_invalid entry);
      leaf = leaf;
      plain = plain;
      granted = granted;
      address = omega (arith, mapped, plain.entry_lt);
    }
