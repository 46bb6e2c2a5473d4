-- ===== src/Fdt/Reads.antt =====
-- The reads of the parser stay in the blob.
use risky.Base.{
  ℕ, zero, suc, ◌+◌, ◌-◌, ◌^◌, ◌≤◌, ◌<◌, ◌≡◌, ◌≢◌, ap, inl, inr, Bool, true, not, ◌&&◌, [], ◌∷◌,
  ltb, leb, ◌==◌, u8, sub64, arith, Bool-cases, done, ◌>>◌, guard, Returns, Returns-bind,
  guard-Returns-bind, test-Returns, weaken-Returns,
}
use risky.Fdt.Blob.{
  Blob, Fdt, Text, load, fdt_read_be32, strnlen_at, fdt_bounded_strlen, scan_nul,
  fdt_prop_name_valid, text_is, prop_header, fdt_range_valid, fdt_magic, fdt_init,
}

-- The blocks lie in the blob, which does not reach the end of the address space.
pub record IsParsed (f : Fdt) : Type 0 where
  pub starts : f.blob.base ≤ f.struct_block
  pub ordered : f.struct_block ≤ f.struct_block_end
  pub ends : f.struct_block_end ≤ f.blob.base + f.blob.extent
  pub strings_start : f.blob.base ≤ f.strings_block
  pub strings_end : f.strings_block + f.strings_size ≤ f.blob.base + f.blob.extent
  pub room : f.blob.base + f.blob.extent + 8 ≤ 2 ^ 64
  pub small : f.struct_block_end < f.struct_block + 2 ^ 32

-- A byte 0 at `s` or after it, before `limit`.
pub record Ends (b : Blob) (s limit : ℕ) : Type 0 where
  pub nul : ℕ
  pub after : s ≤ nul
  pub before : nul < limit
  pub is_nul : u8 (b.byte nul) ≡ 0

-- No byte is a NUL.
abbrev pub nul_free : Text → Bool
nul_free [] = true
nul_free (c ∷ cs) = not (c == 0) && nul_free cs

abbrev pub IsText : Text → Type 0
IsText cs = nul_free cs ≡ true

pub text_head : (c : ℕ) (cs : Text) → IsText (c ∷ cs) → (c ≢ 0) × IsText cs
text_head c cs is = (λ e. ground arith, ground arith)

module _ (b : Blob) where
  pub load_lem : (p : ℕ) → b.base ≤ p → p < b.base + b.extent → load b p ≡ done (u8 (b.byte p))
  unfolding load
  load_lem p lo hi = ground arith

  pub be32-Returns :
      (p : ℕ)
      → b.base ≤ p
      → p + 4 ≤ b.base + b.extent
      → Returns (λ v. v < 2 ^ 32) (fdt_read_be32 b p)
  unfolding fdt_read_be32
  be32-Returns p lo hi =
      rw
        (
          load_lem p lo (omega arith),
          load_lem (p + 1) (omega arith) (omega arith),
          load_lem (p + 2) (omega arith) (omega arith),
          load_lem (p + 3) (omega arith) (omega arith),
        )
        (omega arith)

  strnlen-Returns :
      (count len s : ℕ)
      → b.base ≤ s
      → s + len + count ≤ b.base + b.extent
      → Returns (λ n. n ≤ len + count) (strnlen_at b count len s)
  unfolding strnlen_at
  strnlen-Returns zero len s lo hi = omega arith
  strnlen-Returns (suc count) len s lo hi = rw (load_lem (s + len) (omega arith) (omega arith)) (
      test-Returns (λ n. n ≤ len + suc count) (u8 (b.byte (s + len)) == 0) _ _ (λ e. omega arith)
        λ e.
          weaken-Returns (λ n. n ≤ len + 1 + count) (λ n. n ≤ len + suc count)
            (strnlen_at b count (len + 1) s) (λ n h. omega arith)
            (strnlen-Returns count (len + 1) s lo (omega arith)))

  pub bounded_strlen-Returns :
      (s limit : ℕ)
      → b.base ≤ s
      → s ≤ limit
      → limit ≤ b.base + b.extent
      → b.base + b.extent < 2 ^ 64
      → Returns (λ len. s + len < limit) (fdt_bounded_strlen b s limit)
  unfolding fdt_bounded_strlen
  bounded_strlen-Returns s limit lo le hi room =
      let width : sub64 limit s ≡ limit - s = omega arith in
      rw width (
        Returns-bind (λ n. n ≤ 0 + (limit - s)) (λ len. s + len < limit)
          (strnlen_at b (limit - s) 0 s) _ (strnlen-Returns (limit - s) 0 s lo (omega arith))
          λ len e le'.
            guard-Returns-bind (λ n. s + n < limit) (ltb (s + len) limit) _ λ test. ground arith)

  pub text_is-Returns :
      (name : Text) (s : ℕ)
      → IsText name
      → b.base ≤ s
      → Ends b s (b.base + b.extent)
      → Returns (λ _. Unit {0}) (text_is b s name)
  unfolding text_is
  text_is-Returns [] s is lo e = rw (load_lem s lo (omega (arith, e.after, e.before))) tt
  text_is-Returns (x ∷ xs) s is lo e = rw (load_lem s lo (omega (arith, e.after, e.before))) (
      test-Returns (λ _. Unit {0}) (u8 (b.byte s) == x) _ _
        (λ same.
          text_is-Returns xs (s + 1) ((text_head x xs is).1) (omega arith)
            (record { nul = e.nul; after = later same; before = e.before; is_nul = e.is_nul }))
        (λ _. tt))
    where
      later : (u8 (b.byte s) == x) ≡ true → s + 1 ≤ e.nul
      later same = elim (Bool-cases (s == e.nul)) [
        | inl here ↦
            let at : s ≡ e.nul = ground arith in
            absurd
              (ground (arith, e.is_nul, (text_head x xs is).0, ap (λ (q : ℕ). u8 (b.byte q)) at))
        | inr beyond ↦ ground (arith, e.after)
      ]

  valid_ranges :
      (total o s o' s' : ℕ)
      → (fdt_range_valid total o s && fdt_range_valid total o' s') ≡ true
      → (o + s ≤ total) × (o' + s' ≤ total)
  unfolding fdt_range_valid
  valid_ranges total o s o' s' e = ground arith

  pub header-IsParsed :
      40 ≤ b.extent
      → b.base + b.extent + 8 ≤ 2 ^ 64
      → ((total : ℕ) → fdt_read_be32 b (b.base + 4) ≡ done total → total ≤ b.extent)
      → Returns IsParsed (fdt_init b)
  unfolding fdt_init
  header-IsParsed header room whole =
      Returns-bind (λ v. v < 2 ^ 32) IsParsed (fdt_read_be32 b b.base) _
        (be32-Returns b.base (omega arith) (omega arith))
        λ magic _ _. guard-Returns-bind IsParsed (magic == fdt_magic) _ λ _.
          Returns-bind (λ v. v < 2 ^ 32) IsParsed (fdt_read_be32 b (b.base + 4)) _
            (be32-Returns (b.base + 4) (omega arith) (omega arith))
            λ total e _.
              Returns-bind (λ v. v < 2 ^ 32) IsParsed (fdt_read_be32 b (b.base + 8)) _
                (be32-Returns (b.base + 8) (omega arith) (omega arith))
                λ off_struct _ _.
                  Returns-bind (λ v. v < 2 ^ 32) IsParsed (fdt_read_be32 b (b.base + 12)) _
                    (be32-Returns (b.base + 12) (omega arith) (omega arith))
                    λ off_strings _ _.
                      Returns-bind (λ v. v < 2 ^ 32) IsParsed (fdt_read_be32 b (b.base + 36)) _
                        (be32-Returns (b.base + 36) (omega arith) (omega arith))
                        λ size_struct _ small.
                          Returns-bind (λ v. v < 2 ^ 32) IsParsed (fdt_read_be32 b (b.base + 32)) _
                            (be32-Returns (b.base + 32) (omega arith) (omega arith))
                            λ size_strings _ _.
                              guard-Returns-bind IsParsed
                                (fdt_range_valid total off_struct size_struct
                                  && fdt_range_valid total off_strings size_strings)
                                _
                                λ valid.
                                  let inside =
                                    valid_ranges total off_struct size_struct off_strings
                                      size_strings valid in
                                  let fits = whole total e in
                                  record {
                                    starts = omega arith;
                                    ordered = omega arith;
                                    ends = omega arith;
                                    strings_start = omega arith;
                                    strings_end = omega arith;
                                    room = room;
                                    small = omega arith;
                                  }

module _ (f : Fdt) (is : IsParsed f) where
  scan_nul-Returns :
      (count idx : ℕ)
      → idx + count ≤ f.strings_size
      → Returns
          (λ _. Ends f.blob (f.strings_block + idx) (f.blob.base + f.blob.extent))
          (scan_nul f count idx)
  unfolding scan_nul
  scan_nul-Returns zero idx le = tt
  scan_nul-Returns (suc count) idx le =
      let hi : f.strings_block + idx < f.blob.base + f.blob.extent =
        omega (arith, is.strings_end) in
      rw (load_lem f.blob (f.strings_block + idx) (omega (arith, is.strings_start)) hi) (
        test-Returns (λ _. Ends f.blob (f.strings_block + idx) (f.blob.base + f.blob.extent))
          (u8 (f.blob.byte (f.strings_block + idx)) == 0) _ _
          (λ e. record {
            nul = f.strings_block + idx;
            after = omega arith;
            before = hi;
            is_nul = ground arith;
          })
          λ e.
            weaken-Returns
              (λ _. Ends f.blob (f.strings_block + (idx + 1)) (f.blob.base + f.blob.extent))
              (λ _. Ends f.blob (f.strings_block + idx) (f.blob.base + f.blob.extent)) _
              (λ u ends. record {
                nul = ends.nul;
                after = omega (arith, ends.after);
                before = ends.before;
                is_nul = ends.is_nul;
              })
              (scan_nul-Returns count (idx + 1) (omega arith)))

  -- What a length and a name offset promise once the tests of `prop_header` have passed.
  pub header-Returns :
      (cursor : ℕ)
      → f.blob.base ≤ cursor
      → cursor ≤ f.struct_block_end
      → Returns
          (λ (h : ℕ × ℕ).
            (cursor + 8 + h.0 ≤ f.struct_block_end)
            × Ends f.blob (f.strings_block + h.1) (f.blob.base + f.blob.extent))
          (prop_header f cursor)
  unfolding prop_header fdt_prop_name_valid
  header-Returns cursor lo hi =
      let Good : ℕ × ℕ → Type 0 = λ h.
        (cursor + 8 + h.0 ≤ f.struct_block_end)
        × Ends f.blob (f.strings_block + h.1) (f.blob.base + f.blob.extent) in
      guard-Returns-bind Good (not (ltb (sub64 f.struct_block_end cursor) 8)) _ λ wide.
        let inside : cursor + 8 ≤ f.struct_block_end = ground (arith, is.room, is.ends) in
        Returns-bind (λ v. v < 2 ^ 32) Good (fdt_read_be32 f.blob cursor) _
          (be32-Returns f.blob cursor lo (omega (arith, is.ends)))
          λ len _ _.
            Returns-bind (λ v. v < 2 ^ 32) Good (fdt_read_be32 f.blob (cursor + 4)) _
              (be32-Returns f.blob (cursor + 4) (omega arith) (omega (arith, is.ends)))
              λ nameoff _ _.
                guard-Returns-bind Good (not (ltb (sub64 f.struct_block_end (cursor + 8)) len)) _
                  λ fits.
                    Returns-bind
                      (λ _. Ends f.blob (f.strings_block + nameoff) (f.blob.base + f.blob.extent))
                      Good
                      (guard (not (leb f.strings_size nameoff))
                        >> scan_nul f (f.strings_size - nameoff) nameoff)
                      _
                      (guard-Returns-bind _ (not (leb f.strings_size nameoff)) _
                        λ e. scan_nul-Returns (f.strings_size - nameoff) nameoff (ground arith))
                      λ _ _ ends. (ground (arith, is.room, is.ends), ends)
