-- ===== src/Fdt/Payload.antt =====
-- The reads of properties stay in the blob when the structure block ends on a token.
use native.Mathlib.Nat.{mul-le-mul_left}
use mathlib.Core.Path.{subst}
use risky.Base.{
  ℕ, zero, suc, ◌+◌, ◌-◌, ◌*◌, ◌/◌, ◌%◌, ◌^◌, ◌≤◌, ◌<◌, ◌≡◌, refl, Bool, true, false, not, ◌||◌,
  ltb, ◌==◌, if◌then◌else◌, u32, u64, arith, Outcome, done, Returns, Returns-bind,
  guard-Returns-bind, test-Returns, if-Returns,
}
use risky.Fdt.Blob.{
  Blob, Fdt, Property, Text, text, fdt_read_be32, fdt_align4, fdt_bounded_strlen, text_is,
  prop_header,
}
use risky.Fdt.Walk.{Node, fdt_begin_node, fdt_end_node, fdt_prop, fdt_nop, struct_rounds}
use risky.Fdt.Property.{
  Round, found, next, fdt_node_payload, skip_child, property_here, property_case, property_token,
  property_loop, fdt_get_property, read_cells, fdt_get_reg,
}
use risky.Fdt.Reads.{
  IsParsed, IsText, be32-Returns, bounded_strlen-Returns, text_is-Returns, header-Returns,
}

-- The structure block ends on a token, as the format demands; `fdt_init` does not test it.
pub record IsAligned (f : Fdt) : Type 0 where
  pub parsed : IsParsed f
  pub whole : f.struct_block_end % 4 ≡ 0

-- The value of a property lies in the structure block.
pub record Inside (f : Fdt) (prop : Property) : Type 0 where
  pub start : f.struct_block ≤ prop.value
  pub limit : prop.value + prop.len ≤ f.struct_block_end

-- A round goes on by at least the token and ends at a multiple of four.
abbrev Onward : Fdt → ℕ → Round → Type 0
Onward f cursor (found prop) = Inside f prop
Onward f cursor (next cursor' depth) = (cursor < cursor') × (cursor' % 4 ≡ 0)

pub payload-Returns :
    (f : Fdt)
    → IsParsed f
    → (node : Node) → Returns (λ p. (f.struct_block ≤ p) × (p % 4 ≡ 0)) (fdt_node_payload f node)
unfolding fdt_node_payload
payload-Returns f is node =
    let cursor = f.struct_block + node.struct_offset in
    guard-Returns-bind _ (not (ltb f.struct_block_end (cursor + 4))) _ λ inside.
      let fits : cursor + 4 ≤ f.struct_block_end = ground arith in
      Returns-bind _ _ (fdt_read_be32 f.blob cursor) _
        (be32-Returns f.blob cursor (omega (arith, is.starts)) (omega (arith, is.ends)))
        λ token _ _. guard-Returns-bind _ (token == fdt_begin_node) _ λ _.
          Returns-bind _ _ (fdt_bounded_strlen f.blob (cursor + 4) f.struct_block_end) _
            (bounded_strlen-Returns f.blob (cursor + 4) f.struct_block_end
              (omega (arith, is.starts)) fits is.ends (omega (arith, is.room)))
            λ len _ h.
              guard-Returns-bind _
                (not (ltb f.struct_block_end (fdt_align4 (cursor + 4 + len + 1)))) _
                λ _. (omega (arith, is.room, is.ends), omega arith)

module _ (f : Fdt) (is : IsAligned f) (name : Text) (name_is : IsText name) where
  outcome :
      (same : Bool) (from cursor len depth : ℕ)
      → f.struct_block ≤ cursor
      → from < fdt_align4 (cursor + 8 + len)
      → cursor + 8 + len ≤ f.struct_block_end
      → Onward f from (
          if same
          then found (record { value = cursor + 8; len = len })
          else next (fdt_align4 (cursor + 8 + len)) depth)
  outcome true from cursor len depth lo on hi = record { start = omega arith; limit = omega arith }
  outcome false from cursor len depth lo on hi = (on, omega arith)

  property_token-Returns :
      (cursor depth : ℕ)
      → f.struct_block ≤ cursor
      → cursor < f.struct_block_end
      → cursor % 4 ≡ 0
      → Returns (Onward f cursor) (property_token f name cursor depth)
  unfolding property_token property_case skip_child property_here
  property_token-Returns cursor depth lo hi four =
      let inside : cursor + 4 ≤ f.struct_block_end = omega (arith, is.whole) in
      let start : f.blob.base ≤ cursor = omega (arith, is.parsed.starts) in
      Returns-bind _ _ (fdt_read_be32 f.blob cursor) _
        (be32-Returns f.blob cursor start (omega (arith, is.parsed.ends)))
        λ token e _.
          if-Returns _ (token == fdt_begin_node) _ _
            (λ _.
              Returns-bind _ _ (fdt_bounded_strlen f.blob (cursor + 4) f.struct_block_end) _
                (bounded_strlen-Returns f.blob (cursor + 4) f.struct_block_end (omega arith) inside
                  is.parsed.ends (omega (arith, is.parsed.room)))
                λ len _ h. (omega (arith, is.parsed.room, is.parsed.ends), omega arith))
            λ _.
              if-Returns _ (token == fdt_end_node) _ _
                (λ _. if-Returns _ (depth == 0) _ _ (λ _. tt) λ _. (omega arith, omega arith))
                λ _.
                  if-Returns _ (token == fdt_prop) _ _
                    (λ _.
                      Returns-bind _ _ (prop_header f (cursor + 4)) _
                        (header-Returns f is.parsed (cursor + 4) (omega arith) inside)
                        λ h _ good.
                          Returns-bind (λ _. Unit {0}) _
                            (if depth == 0
                              then text_is f.blob (f.strings_block + h.1) name
                              else done false)
                            _
                            (if-Returns _ (depth == 0) _ _
                              (λ _.
                                text_is-Returns f.blob name (f.strings_block + h.1) name_is
                                  (omega (arith, is.parsed.strings_start)) (good.1))
                              λ _. tt)
                            λ same _ _.
                              outcome same cursor (cursor + 4) (h.0) depth (omega arith)
                                (omega (arith, is.parsed.ends, is.parsed.room, good.0)) (good.0))
                    λ _.
                      if-Returns _ (token == fdt_nop) _ _ (λ _. (omega arith, omega arith)) λ _. tt

  property_loop-Returns :
      (rounds cursor depth : ℕ)
      → f.struct_block ≤ cursor
      → cursor % 4 ≡ 0
      → f.struct_block_end - cursor < rounds
      → Returns (Inside f) (property_loop rounds f name cursor depth)
  unfolding property_loop
  property_loop-Returns zero cursor depth lo four enough = absurd (omega arith)
  property_loop-Returns (suc rounds) cursor depth lo four enough =
      test-Returns _ (ltb cursor f.struct_block_end) _ _
        (λ left.
          let inside : cursor < f.struct_block_end = ground arith in
          Returns-bind _ _ (property_token f name cursor depth) _
            (property_token-Returns cursor depth lo inside four)
            λ round _. go round inside λ cursor' depth' on four'.
              property_loop-Returns rounds cursor' depth' (omega arith) four' (omega arith))
        λ _. tt
    where
      go :
          (round : Round)
          → cursor < f.struct_block_end
          → ((cursor' depth' : ℕ)
              → cursor < cursor'
              → cursor' % 4 ≡ 0
              → Returns (Inside f) (property_loop rounds f name cursor' depth'))
          → Onward f cursor round
          → Returns (Inside f) (elim round as (λ _. Outcome Property) [
            | found prop ↦ done prop
            | next cursor' depth' ↦ property_loop rounds f name cursor' depth'
          ])
      go (found prop) inside later h = h
      go (next cursor' depth') inside later h = later cursor' depth' (h.0) (h.1)

  pub get_property-Returns : (node : Node) → Returns (Inside f) (fdt_get_property f node name)
  unfolding fdt_get_property
  get_property-Returns node =
      Returns-bind _ _ (fdt_node_payload f node) _ (payload-Returns f is.parsed node) λ cursor _ h.
        property_loop-Returns (struct_rounds f) cursor 0 (h.0) (h.1)
          (omega (arith, h.0, is.parsed.ordered))

read_cells-Returns :
    (b : Blob) (count acc cells : ℕ)
    → acc < 2 ^ 64
    → b.base ≤ cells
    → cells + 4 * count ≤ b.base + b.extent
    → Returns (λ v. v < 2 ^ 64) (read_cells b count acc cells)
unfolding read_cells
read_cells-Returns b zero acc cells small lo hi = small
read_cells-Returns b (suc count) acc cells small lo hi =
    Returns-bind _ _ (fdt_read_be32 b cells) _ (be32-Returns b cells lo (omega arith))
      λ v _ v_small.
        read_cells-Returns b count (u64 (acc * 2 ^ 32) + v) (cells + 4) (omega arith) (omega arith)
          (omega arith)

-- The product by the number of cells does not wrap, so the test covers the entry.
entry_fits :
    (index cells len : ℕ)
    → index + 1 < 2 ^ 30
    → cells ≤ 4
    → len % 4 ≡ 0
    → u32 (u32 (index + 1) * cells) ≤ len / 4
    → 4 * u32 (index * cells) + 4 * cells ≤ len
entry_fits index cells len small few whole h =
    let bound : index * cells ≤ index * 4 = mul-le-mul_left index few in
    let narrow : u32 (index + 1) ≡ index + 1 = omega arith in
    let split : (index + 1) * cells ≡ index * cells + cells = omega arith in
    let h' : u32 (index * cells + cells) ≤ len / 4 =
      subst (λ (p : ℕ). u32 p ≤ len / 4) split
        (subst (λ (i : ℕ). u32 (i * cells) ≤ len / 4) narrow h) in
    omega arith

-- When the structure block ends on a token, and `index` is below 2^30 - 1, reading the register
-- entry `index` of any node ends, reads no byte outside the blob, whatever the blob says, and
-- gives an address and a size of 64 bits.
pub fdt_get_reg-Returns :
    (f : Fdt) (node : Node) (index : ℕ)
    → IsAligned f
    → index + 1 < 2 ^ 30
    → Returns (λ (r : ℕ × ℕ). (r.0 < 2 ^ 64) × (r.1 < 2 ^ 64)) (fdt_get_reg f node index)
unfolding fdt_get_reg
fdt_get_reg-Returns f node index is small =
    let a = node.parent_address_cells in
    let s = node.parent_size_cells in
    Returns-bind _ _ (fdt_get_property f node (text "reg")) _
      (get_property-Returns f is (text "reg") refl node)
      λ prop _ inside. guard-Returns-bind _ (not (ltb 2 a || ltb 2 s)) _ λ cells.
        guard-Returns-bind _ (not (a + s == 0 || not (prop.len % 4 == 0))) _ λ whole.
          guard-Returns-bind _ (not (ltb (prop.len / 4) (u32 (u32 (index + 1) * (a + s))))) _
            λ enough.
              let fits : 4 * u32 (index * (a + s)) + 4 * (a + s) ≤ prop.len =
                entry_fits index (a + s) prop.len small (ground arith) (ground arith)
                  (ground arith) in
              Returns-bind _ _ (read_cells f.blob a 0 (prop.value + u32 (index * (a + s)) * 4)) _
                (read_cells-Returns f.blob a 0 (prop.value + u32 (index * (a + s)) * 4)
                  (omega arith) (omega (arith, inside.start, is.parsed.starts))
                  (omega (arith, inside.limit, is.parsed.ends)))
                λ addr _ addr_small.
                  Returns-bind _ _
                    (read_cells f.blob s 0 (prop.value + u32 (index * (a + s)) * 4 + 4 * a)) _
                    (read_cells-Returns f.blob s 0 (prop.value + u32 (index * (a + s)) * 4 + 4 * a)
                      (omega arith) (omega (arith, inside.start, is.parsed.starts))
                      (omega (arith, inside.limit, is.parsed.ends)))
                    λ size _ size_small. (addr_small, size_small)
