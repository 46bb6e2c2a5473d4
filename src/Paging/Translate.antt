-- ===== src/Paging/Translate.antt =====
-- What the processor makes of the page tables: the translation of the RISC-V privileged
-- specification, which the source relies on, on the memory of `Paging`. An entry is valid by bit 0
-- and a leaf by a bit among R, W and X (bits 1 to 3); bits 10 to 53 are the frame. A leaf that is
-- writable but not readable, or not aligned to its level, is a page fault, as is what is not
-- mapped: `none`. A leaf gives itself and the address. The processor does not look at address
-- bits above those of the root's level.
use risky.Base.{
  ℕ, zero, suc, ◌+◌, ◌*◌, ◌/◌, ◌%◌, ◌^◌, ◌<◌, ◌≡◌, refl, Bool, true, false, not, ◌&&◌, ◌||◌, Option,
  none, some, ◌==◌, if◌then◌else◌, arith, bit_and, bit_and_nibble,
}
use risky.Page.{phys_to_virt}
use risky.Paging.{
  Layout, slot, paging_level_index, paging_level_block_size, has_bits, pte_v, rwx,
  paging_pte_to_phys,
}

abbrev pub is_valid : ℕ → Bool
is_valid entry = entry % 2 == 1

-- The bits R, W and X.
abbrev pub rights : ℕ → ℕ
rights entry = entry / 2 % 8

abbrev pub frame_address : ℕ → ℕ
frame_address entry = entry / 2 ^ 10 % 2 ^ 44 * 2 ^ 12

abbrev pub next_table : Layout → (entry : ℕ) → ℕ
next_table l entry = phys_to_virt l.offset (frame_address entry)

-- `1` for R, `2` for W and `4` for X.
abbrev pub is_fault : (level entry : ℕ) → Bool
is_fault level entry =
    rights entry == 2 || (rights entry == 6 || not (entry / 2 ^ 10 % 2 ^ (9 * level) == 0))

-- One step of the walk, `below` being the rest of it.
unfoldable pub resolve : (level entry virt : ℕ) → (below : Option (ℕ × ℕ)) → Option (ℕ × ℕ)
resolve level entry virt below =
    if not (is_valid entry)
    then none
    else if rights entry == 0
    then below
    else if is_fault level entry
    then none
    else some (entry, frame_address entry + virt % paging_level_block_size level)

unfoldable pub translate : Layout → (ℕ → ℕ) → (level table virt : ℕ) → Option (ℕ × ℕ)
translate l words zero table virt =
    resolve 0 (words (slot table (paging_level_index virt 0))) virt none
translate l words (suc level) table virt =
    let entry = words (slot table (paging_level_index virt (suc level))) in
    let below = translate l words level (next_table l entry) virt in
    resolve (suc level) entry virt below

-- The addresses have the same index at each of the lowest `count` levels.
unfoldable pub same_page : (count virt virt' : ℕ) → Bool
same_page zero virt virt' = true
same_page (suc count) virt virt' =
    same_page count virt virt' && paging_level_index virt count == paging_level_index virt' count

-- The tests of the source against those of the processor.
pub has_rwx : (entry : ℕ) → has_bits entry rwx ≡ not (rights entry == 0)
has_rwx entry = ground (arith, bit_and_nibble entry 14)

pub is_invalid : (entry : ℕ) → (bit_and entry pte_v == 0) ≡ not (is_valid entry)
is_invalid entry = ground (arith, bit_and_nibble entry 1)

pub pte_to_phys-frame_address :
    (entry : ℕ) → entry < 2 ^ 54 → paging_pte_to_phys entry ≡ frame_address entry
pte_to_phys-frame_address entry h = omega arith

module _ (level entry virt : ℕ) (below : Option (ℕ × ℕ)) where
  pub resolve_invalid : is_valid entry ≡ false → resolve level entry virt below ≡ none
  unfolding resolve
  resolve_invalid e = rw e refl

  pub resolve_branch :
      is_valid entry ≡ true → (rights entry == 0) ≡ true → resolve level entry virt below ≡ below
  unfolding resolve
  resolve_branch e r = rw (e, r) refl

  pub resolve_leaf :
      is_valid entry ≡ true
      → (rights entry == 0) ≡ false
      → is_fault level entry ≡ false
      → resolve level entry virt below
        ≡ some (entry, frame_address entry + virt % paging_level_block_size level)
  unfolding resolve
  resolve_leaf e r f = rw (e, r, f) refl

  -- The rest of the walk matters at a branch only.
  pub resolve_below :
      (other : Option (ℕ × ℕ))
      → (is_valid entry ≡ true → (rights entry == 0) ≡ true → below ≡ other)
      → resolve level entry virt below ≡ resolve level entry virt other
  unfolding resolve
  resolve_below other h = ground (arith, h)
