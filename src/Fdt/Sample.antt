-- ===== src/Fdt/Sample.antt =====
-- The bytes of a small tree: `/chosen`, `/aliases` and a UART `/u` below a root that has a property.
use risky.Base.{
  ℕ, zero, suc, ◌-◌, ◌/◌, ◌%◌, ◌^◌, ◌≤◌, ◌≡◌, refl, sym, ap, ◌∙◌, List, [], ◌∷◌, arith, Outcome,
  done, refused, fault, spent,
}
use risky.Fdt.Blob.{Blob, Fdt, load, fdt_read_be32}

abbrev pub words : List ℕ
words =
    3490578157 ∷ 221 ∷ 40 ∷ 192 ∷ 0 ∷ 17 ∷ 16 ∷ 0 ∷ 29 ∷ 152 ∷ 1 ∷ 0 ∷ 1 ∷ 1667788659 ∷ 1701707776
    ∷ 3 ∷ 4 ∷ 0 ∷ 1933195520 ∷ 2 ∷ 1 ∷ 1634494817 ∷ 1936028416 ∷ 3 ∷ 3 ∷ 12 ∷ 796196864 ∷ 2 ∷ 1
    ∷ 1962934272 ∷ 3 ∷ 9 ∷ 14 ∷ 1853042998 ∷ 892678241 ∷ 0 ∷ 3 ∷ 12 ∷ 25 ∷ 7 ∷ 0 ∷ 9 ∷ 2 ∷ 3 ∷ 4
    ∷ 25 ∷ 9 ∷ 2 ∷ 1937007727 ∷ 1970548080 ∷ 1635018752 ∷ 1929405295 ∷ 1836081524 ∷ 1768057957
    ∷ 7497063 ∷ 0 ∷ []

abbrev pub nth : List ℕ → ℕ → ℕ
nth [] i = 0
nth (w ∷ ws) zero = w
nth (w ∷ ws) (suc i) = nth ws i

abbrev pub small_blob : Blob
small_blob = record {
  base = 4096;
  extent = 224;
  byte = λ p. nth words ((p - 4096) / 4) / 256 ^ (3 - p % 4) % 256;
}

abbrev pub small_fdt : Fdt
small_fdt = record {
  blob = small_blob;
  struct_block = 4136;
  struct_block_end = 4288;
  strings_block = 4288;
  strings_size = 29;
}

total_size : fdt_read_be32 small_blob 4100 ≡ done 221
unfolding fdt_read_be32 load
total_size = refl

abbrev value_of : Outcome ℕ → ℕ
value_of (done n) = n
value_of refused = 0
value_of fault = 0
value_of spent = 0

pub sample_total : (total : ℕ) → fdt_read_be32 small_blob 4100 ≡ done total → total ≤ 224
sample_total total e = let same : total ≡ 221 = ap value_of (sym e ∙ total_size) in omega arith
