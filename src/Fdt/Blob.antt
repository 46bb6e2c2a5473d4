-- ===== src/Fdt/Blob.antt =====
-- Reads from the blob, `fdt_init`, and the helpers on names and values.
use Prim.Native.Char.{code}
use Prim.Native.String.{String}
use risky.Base.{
  ℕ, zero, suc, ◌+◌, ◌-◌, ◌*◌, ◌/◌, ◌^◌, Bool, true, false, not, ◌&&◌, List, [], ◌∷◌, ltb, leb,
  ◌==◌, if◌then◌else◌, u8, u64, sub64, Outcome, done, refused, fault, ◌>>=◌, ◌>>◌, guard,
}

-- `extent` bytes of memory stand at `base`.
pub record Blob : Type 0 where
  pub base : ℕ
  pub extent : ℕ
  pub byte : ℕ → ℕ

unfoldable pub load : Blob → ℕ → Outcome ℕ
load b p = if leb b.base p && ltb p (b.base + b.extent) then done (u8 (b.byte p)) else fault

-- The bytes are shifted to places that do not overlap, so `|` is a sum.
unfoldable pub fdt_read_be32 : Blob → ℕ → Outcome ℕ
fdt_read_be32 b p = do
  b0 ← load b p
  b1 ← load b (p + 1)
  b2 ← load b (p + 2)
  b3 ← load b (p + 3)
  done (b0 * 2 ^ 24 + b1 * 2 ^ 16 + b2 * 2 ^ 8 + b3)

abbrev pub fdt_align4 : ℕ → ℕ
fdt_align4 p = u64 (p + 3) / 4 * 4

-- `struct fdt`, with the memory that it points into.
pub record Fdt : Type 0 where
  pub blob : Blob
  pub struct_block : ℕ
  pub struct_block_end : ℕ
  pub strings_block : ℕ
  pub strings_size : ℕ

-- The loop of `strnlen`, with `count` rounds left.
unfoldable pub strnlen_at : Blob → (count len s : ℕ) → Outcome ℕ
strnlen_at b zero len s = done len
strnlen_at b (suc count) len s = do
  c ← load b (s + len)
  elim (c == 0) [ true ↦ done len | false ↦ strnlen_at b count (len + 1) s ]

-- The length, if the text ends before `limit`.
unfoldable pub fdt_bounded_strlen : Blob → (s limit : ℕ) → Outcome ℕ
fdt_bounded_strlen b s limit = do
  len ← strnlen_at b (sub64 limit s) 0 s
  guard (ltb (s + len) limit)
  done len

unfoldable pub fdt_range_valid : (total_size offset size : ℕ) → Bool
fdt_range_valid total_size offset size = leb offset total_size && leb size (total_size - offset)

abbrev pub fdt_magic : ℕ
fdt_magic = 3490578157

-- The fields of `struct fdt_header` by their offsets.
unfoldable pub fdt_init : Blob → Outcome Fdt
fdt_init b = do
  magic ← fdt_read_be32 b b.base
  guard (magic == fdt_magic)
  total_size ← fdt_read_be32 b (b.base + 4)
  off_struct ← fdt_read_be32 b (b.base + 8)
  off_strings ← fdt_read_be32 b (b.base + 12)
  size_struct ← fdt_read_be32 b (b.base + 36)
  size_strings ← fdt_read_be32 b (b.base + 32)
  guard (
      fdt_range_valid total_size off_struct size_struct
      && fdt_range_valid total_size off_strings size_strings)
  done (record {
    blob = b;
    struct_block = b.base + off_struct;
    struct_block_end = b.base + off_struct + size_struct;
    strings_block = b.base + off_strings;
    strings_size = size_strings;
  })

-- The loop of `fdt_prop_name_valid` from `idx` on.
unfoldable pub scan_nul : Fdt → (count idx : ℕ) → Outcome (Unit {0})
scan_nul f zero idx = refused
scan_nul f (suc count) idx = do
  c ← load f.blob (f.strings_block + idx)
  elim (c == 0) [ true ↦ done tt | false ↦ scan_nul f count (idx + 1) ]

unfoldable pub fdt_prop_name_valid : Fdt → (nameoff : ℕ) → Outcome (Unit {0})
fdt_prop_name_valid f nameoff = do
  guard (not (leb f.strings_size nameoff))
  scan_nul f (f.strings_size - nameoff) nameoff

-- A text of the code or of a caller, by its bytes before the NUL.
abbrev pub Text : Type 0
Text = List ℕ

abbrev pub text : String → Text
text String.[] = []
text (String.◌∷◌ c s) = code c ∷ text s

-- `strcmp(s, text) == 0`: the bytes at `s` are read up to the first difference.
unfoldable pub text_is : Blob → ℕ → Text → Outcome Bool
text_is b s [] = do c ← load b s; done (c == 0)
text_is b s (x ∷ xs) = do
  c ← load b s
  elim (c == x) [ true ↦ text_is b (s + 1) xs | false ↦ done false ]

-- `struct fdt_prop`; `value` is the pointer `data`.
pub record Property : Type 0 where
  pub value : ℕ
  pub len : ℕ

unfoldable pub fdt_prop_is_string : Blob → Property → Outcome (Unit {0})
fdt_prop_is_string b prop = do
  guard (ltb 0 prop.len)
  c ← load b (prop.value + prop.len - 1)
  guard (c == 0)

unfoldable pub fdt_prop_get_u32 : Blob → Property → Outcome ℕ
fdt_prop_get_u32 b prop = do guard (prop.len == 4); fdt_read_be32 b prop.value

-- The length and the name of a property behind its token, with the tests of both loops.
unfoldable pub prop_header : Fdt → (cursor : ℕ) → Outcome (ℕ × ℕ)
prop_header f cursor = do
  guard (not (ltb (sub64 f.struct_block_end cursor) 8))
  len ← fdt_read_be32 f.blob cursor
  nameoff ← fdt_read_be32 f.blob (cursor + 4)
  guard (not (ltb (sub64 f.struct_block_end (cursor + 8)) len))
  fdt_prop_name_valid f nameoff
  done (len, nameoff)
