-- ===== src/Fdt/Property.antt =====
-- The properties of a node: `fdt_get_property`, `fdt_node_has_compatible`, `fdt_get_reg`.
use risky.Base.{
  ℕ, zero, suc, ◌+◌, ◌-◌, ◌*◌, ◌/◌, ◌%◌, ◌^◌, true, false, not, ◌||◌, ltb, leb, ◌==◌, if◌then◌else◌,
  u32, u64, Outcome, done, refused, spent, ◌>>=◌, ◌>>◌, guard,
}
use risky.Fdt.Blob.{
  Blob, Fdt, Property, Text, text, load, fdt_read_be32, fdt_align4, fdt_bounded_strlen, text_is,
  prop_header, fdt_prop_get_u32,
}
use risky.Fdt.Walk.{Node, fdt_begin_node, fdt_end_node, fdt_prop, fdt_nop, struct_rounds}

unfoldable pub fdt_node_payload : Fdt → Node → Outcome ℕ
fdt_node_payload f node = do
  let cursor = f.struct_block + node.struct_offset
  guard (not (ltb f.struct_block_end (cursor + 4)))
  token ← fdt_read_be32 f.blob cursor
  guard (token == fdt_begin_node)
  len ← fdt_bounded_strlen f.blob (cursor + 4) f.struct_block_end
  let cursor' = fdt_align4 (cursor + 4 + len + 1)
  guard (not (ltb f.struct_block_end cursor'))
  done cursor'

-- What a round of the loop of `fdt_get_property` ends with.
pub data Round : Type 0 where
  found : Property → Round
  next : (cursor depth : ℕ) → Round

-- `case FDT_BEGIN_NODE` and `case FDT_PROP`, with the cursor behind the token.
unfoldable pub skip_child : Fdt → (cursor depth : ℕ) → Outcome Round
skip_child f cursor depth = do
  len ← fdt_bounded_strlen f.blob cursor f.struct_block_end
  done (next (fdt_align4 (cursor + len + 1)) (depth + 1))

unfoldable pub property_here : Fdt → (name : Text) → (cursor depth : ℕ) → Outcome Round
property_here f name cursor depth = do
  (len, nameoff) ← prop_header f cursor
  same ← (if depth == 0 then text_is f.blob (f.strings_block + nameoff) name else done false)
  done (
      if same
      then found (record { value = cursor + 8; len = len })
      else next (fdt_align4 (cursor + 8 + len)) depth)

unfoldable pub property_case : Fdt → (name : Text) → (token cursor depth : ℕ) → Outcome Round
property_case f name token cursor depth =
    if token == fdt_begin_node
    then skip_child f cursor depth
    else if token == fdt_end_node
    then (if depth == 0 then refused else done (next cursor (depth - 1)))
    else if token == fdt_prop
    then property_here f name cursor depth
    else if token == fdt_nop
    then done (next cursor depth)
    else refused

-- The token is read without a test that four bytes are left.
unfoldable pub property_token : Fdt → (name : Text) → (cursor depth : ℕ) → Outcome Round
property_token f name cursor depth = do
  token ← fdt_read_be32 f.blob cursor
  property_case f name token (cursor + 4) depth

unfoldable pub property_loop :
    (rounds : ℕ) → Fdt → (name : Text) → (cursor depth : ℕ) → Outcome Property
property_loop zero f name cursor depth = spent
property_loop (suc rounds) f name cursor depth = elim (ltb cursor f.struct_block_end) [
  | true ↦ do
    round ← property_token f name cursor depth
    elim round [
      | found prop ↦ done prop
      | next cursor' depth' ↦ property_loop rounds f name cursor' depth'
    ]
  | false ↦ refused
]

unfoldable pub fdt_get_property : Fdt → Node → Text → Outcome Property
fdt_get_property f node name = do
  cursor ← fdt_node_payload f node
  property_loop (struct_rounds f) f name cursor 0

unfoldable pub fdt_get_u32 : Fdt → Node → Text → Outcome ℕ
fdt_get_u32 f node name = do prop ← fdt_get_property f node name; fdt_prop_get_u32 f.blob prop

-- `strlen`, which no limit ends but a byte 0.
unfoldable pub strlen_at : Blob → (rounds len s : ℕ) → Outcome ℕ
strlen_at b zero len s = spent
strlen_at b (suc rounds) len s = do
  c ← load b (s + len)
  elim (c == 0) [ true ↦ done len | false ↦ strlen_at b rounds (len + 1) s ]

-- One more round than there are bytes.
abbrev pub text_len : Blob → ℕ → Outcome ℕ
text_len b s = strlen_at b (b.extent + 1) 0 s

-- The loop of `fdt_node_has_compatible` from `offset` on.
unfoldable pub compatible_loop :
    (rounds : ℕ) → Blob → Property → Text → (offset : ℕ) → Outcome (Unit {0})
compatible_loop zero b prop compatible offset = spent
compatible_loop (suc rounds) b prop compatible offset = elim (ltb offset prop.len) [
  | false ↦ refused
  | true ↦ do
    len ← text_len b (prop.value + offset)
    guard (not (leb prop.len (offset + len)))
    same ← text_is b (prop.value + offset) compatible
    elim same [
      | true ↦ done tt
      | false ↦ compatible_loop rounds b prop compatible (offset + len + 1)
    ]
]

unfoldable pub fdt_node_has_compatible : Fdt → Node → Text → Outcome (Unit {0})
fdt_node_has_compatible f node compatible = do
  prop ← fdt_get_property f node (text "compatible")
  compatible_loop (prop.len + 1) f.blob prop compatible 0

-- The loops of `fdt_get_reg`: `count` cells at `cells`, most significant first.
unfoldable pub read_cells : Blob → (count acc cells : ℕ) → Outcome ℕ
read_cells b zero acc cells = done acc
read_cells b (suc count) acc cells = do
  v ← fdt_read_be32 b cells
  read_cells b count (u64 (acc * 2 ^ 32) + v) (cells + 4)

-- The address and the size of an entry. `index` and the products by it are of 32 bits.
unfoldable pub fdt_get_reg : Fdt → Node → (index : ℕ) → Outcome (ℕ × ℕ)
fdt_get_reg f node index = do
  prop ← fdt_get_property f node (text "reg")
  guard (not (ltb 2 node.parent_address_cells || ltb 2 node.parent_size_cells))
  let entry_cells = node.parent_address_cells + node.parent_size_cells
  guard (not (entry_cells == 0 || not (prop.len % 4 == 0)))
  guard (not (ltb (prop.len / 4) (u32 (u32 (index + 1) * entry_cells))))
  let cells = prop.value + u32 (index * entry_cells) * 4
  addr ← read_cells f.blob node.parent_address_cells 0 cells
  size ← read_cells f.blob node.parent_size_cells 0 (cells + 4 * node.parent_address_cells)
  done (addr, size)
