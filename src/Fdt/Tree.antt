-- ===== src/Fdt/Tree.antt =====
-- What a node holds, as a tree, and the bytes that encode it.
use risky.Base.{
  ℕ, suc, ◌+◌, ◌≤◌, ◌≡◌, refl, ap, ◌∙◌, arith, Option, none, some, [], ◌∷◌, if◌then◌else◌, Outcome,
  done, refused,
}
use risky.Fdt.Blob.{
  Blob, Fdt, Property, Text, load, fdt_read_be32, fdt_align4, fdt_bounded_strlen, prop_header,
}
use risky.Fdt.Reads.{IsText}
use risky.Fdt.Walk.{fdt_begin_node, fdt_end_node, fdt_prop, fdt_nop}
use risky.Fdt.Find.{same_text}

-- The properties and the children of a node, in their order.
pub data Items : Type 0 where
  nothing : Items
  property : (name : Text) → Property → (rest : Items) → Items
  child : (inner rest : Items) → Items

-- The first property of the node itself that has the name.
abbrev pub lookup : Text → Items → Option Property
lookup name nothing = none
lookup name (property own prop rest) = if same_text own name then some prop else lookup name rest
lookup name (child inner rest) = lookup name rest

abbrev pub from_option {ℓ} : {A : Type ℓ} → Option A → Outcome A
from_option none = refused
from_option (some a) = done a

abbrev pub Bytes : Blob → ℕ → Text → Type 0
Bytes b s [] = load b s ≡ done 0
Bytes b s (c ∷ cs) = (load b s ≡ done c) × Bytes b (s + 1) cs

-- The text stands at `s`, with a NUL behind it and none before that.
abbrev pub Spells : Blob → ℕ → Text → Type 0
Spells b s cs = IsText cs × Bytes b s cs

pub record Token (f : Fdt) (cursor token : ℕ) : Type 0 where
  pub left : cursor + 4 ≤ f.struct_block_end
  pub read : fdt_read_be32 f.blob cursor ≡ done token

-- The items stand from the first cursor on; at the second one is the token that ends the node.
pub data Encodes (f : Fdt) : ℕ → Items → ℕ → Type 0 where
  ends : {cursor : ℕ} → Token f cursor fdt_end_node → Encodes f cursor nothing cursor
  skips :
      {cursor to : ℕ} {items : Items}
      → Token f cursor fdt_nop
      → Encodes f (cursor + 4) items to
      → Encodes f cursor items to
  has :
      {cursor to : ℕ} {rest : Items} (name : Text) (len nameoff : ℕ)
      → Token f cursor fdt_prop
      → prop_header f (cursor + 4) ≡ done (len, nameoff)
      → Spells f.blob (f.strings_block + nameoff) name
      → Encodes f (fdt_align4 (cursor + 4 + 8 + len)) rest to
      → Encodes f cursor (property name (record { value = cursor + 4 + 8; len = len }) rest) to
  holds :
      {cursor inner_end to : ℕ} {inner rest : Items} (len : ℕ)
      → Token f cursor fdt_begin_node
      → fdt_bounded_strlen f.blob (cursor + 4) f.struct_block_end ≡ done len
      → Encodes f (fdt_align4 (cursor + 4 + len + 1)) inner inner_end
      → Encodes f (inner_end + 4) rest to
      → Encodes f cursor (child inner rest) to

-- `rest` and one round for each token before the one that ends the node.
abbrev pub rounds_on : {f : Fdt} {cursor to : ℕ} {items : Items} → Encodes f cursor items to → ℕ → ℕ
rounds_on (ends token) rest = rest
rounds_on (skips token later) rest = suc (rounds_on later rest)
rounds_on (has name len nameoff token header spells later) rest = suc (rounds_on later rest)
rounds_on (holds len token name inside later) rest =
    suc (rounds_on inside (suc (rounds_on later rest)))

rounds_shift :
    {f : Fdt} {cursor to : ℕ} {items : Items} (e : Encodes f cursor items to) (rest more : ℕ)
    → rounds_on e (rest + more) ≡ rounds_on e rest + more
rounds_shift (ends token) rest more = refl
rounds_shift (skips token later) rest more = omega (arith, rounds_shift later rest more)
rounds_shift (has name len nameoff token header spells later) rest more =
    omega (arith, rounds_shift later rest more)
rounds_shift (holds len token name inside later) rest more =
    ap suc (
      ap (rounds_on inside) (ap suc (rounds_shift later rest more) ∙ omega arith)
      ∙ rounds_shift inside (suc (rounds_on later rest)) more)
    ∙ omega arith

pub rounds_split :
    {f : Fdt} {cursor to : ℕ} {items : Items} (e : Encodes f cursor items to) (more : ℕ)
    → rounds_on e more ≡ rounds_on e 0 + more
rounds_split e more =
    let plain : more ≡ 0 + more = omega arith in ap (rounds_on e) plain ∙ rounds_shift e 0 more
