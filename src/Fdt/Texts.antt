-- ===== src/Fdt/Texts.antt =====
-- The texts of `/chosen` and `/aliases` fit the buffer of the caller.
use risky.Base.{
  ℕ, zero, suc, ◌+◌, ◌-◌, ◌≤◌, ◌<◌, ◌≡◌, refl, ap, inl, inr, true, false, not, ◌||◌, Option, none,
  some, length, ltb, ◌==◌, u8, arith, Bool-cases, Outcome, done, or_else, Returns, Returns-bind,
  guard-Returns, guard-Returns-bind, test-Returns, weaken-Returns, or_else-Returns,
}
use risky.Fdt.Blob.{Blob, Fdt, Property, Text, text, fdt_prop_is_string}
use risky.Fdt.Property.{fdt_get_property, strlen_at, text_len}
use risky.Fdt.Find.{
  fdt_find_node_by_path, fdt_copy_string, colon_at, fdt_get_stdout_path, fdt_resolve_alias,
}
use risky.Fdt.Reads.{Ends, IsText, load_lem}
use risky.Fdt.Steps.{copy_bytes-Returns}
use risky.Fdt.Search.{find_path-Returns}
use risky.Fdt.Payload.{IsAligned, Inside, get_property-Returns}

-- The place of a colon, if there is one, is in the text.
abbrev Before : (s limit : ℕ) → Option ℕ → Type 0
Before s limit none = Unit {0}
Before s limit (some n) = s + n < limit

module _ (b : Blob) (s limit : ℕ) (lo : b.base ≤ s) (hi : limit ≤ b.base + b.extent) where
  -- One step of a scan: the byte is not the last, or it is a NUL.
  further :
      (len : ℕ)
      → Ends b (s + len) limit
      → (u8 (b.byte (s + len)) == 0) ≡ false
      → Ends b (s + (len + 1)) limit
  further len ends e = record {
    nul = ends.nul;
    after = elim (Bool-cases (s + len == ends.nul)) [
      | inl here ↦
          let same : s + len ≡ ends.nul = ground arith in
          absurd (ground (arith, ends.is_nul, ap (λ (q : ℕ). u8 (b.byte q)) same))
      | inr beyond ↦ ground (arith, ends.after)
    ];
    before = ends.before;
    is_nul = ends.is_nul;
  }

  strlen_at-Returns :
      (rounds len : ℕ)
      → Ends b (s + len) limit
      → limit < s + len + rounds
      → Returns (λ n. s + n < limit) (strlen_at b rounds len s)
  unfolding strlen_at
  strlen_at-Returns zero len ends enough = absurd (omega (arith, ends.after, ends.before))
  strlen_at-Returns (suc rounds) len ends enough =
      rw (load_lem b (s + len) (omega arith) (omega (arith, ends.after, ends.before))) (
        test-Returns _ (u8 (b.byte (s + len)) == 0) _ _
          (λ _. omega (arith, ends.after, ends.before))
          λ e. strlen_at-Returns rounds (len + 1) (further len ends e) (omega arith))

  colon_at-Returns :
      (rounds len : ℕ)
      → Ends b (s + len) limit
      → limit < s + len + rounds
      → Returns (Before s limit) (colon_at b rounds len s)
  unfolding colon_at
  colon_at-Returns zero len ends enough = absurd (omega (arith, ends.after, ends.before))
  colon_at-Returns (suc rounds) len ends enough =
      rw (load_lem b (s + len) (omega arith) (omega (arith, ends.after, ends.before))) (
        test-Returns _ (u8 (b.byte (s + len)) == 58) _ _
          (λ _. omega (arith, ends.after, ends.before))
          λ _.
            test-Returns _ (u8 (b.byte (s + len)) == 0) _ _ (λ _. tt)
              λ e. colon_at-Returns rounds (len + 1) (further len ends e) (omega arith))

is_string-Returns :
    (f : Fdt) (prop : Property)
    → IsAligned f
    → Inside f prop
    → Returns (λ _. Ends f.blob prop.value (prop.value + prop.len)) (fdt_prop_is_string f.blob prop)
unfolding fdt_prop_is_string
is_string-Returns f prop is inside = guard-Returns-bind _ (ltb 0 prop.len) _ λ some_.
    let last = prop.value + prop.len - 1 in
    let nonempty : 0 < prop.len = ground arith in
    rw
      (load_lem f.blob last (omega (arith, inside.start, is.parsed.starts))
        (omega (arith, inside.limit, is.parsed.ends)))
      (weaken-Returns (λ _. (u8 (f.blob.byte last) == 0) ≡ true) _ _
        (λ _ e. record {
          nul = last;
          after = omega arith;
          before = omega arith;
          is_nul = ground arith;
        })
        (guard-Returns (u8 (f.blob.byte last) == 0)))

copy_string-Returns :
    (b : Blob) (buffer_size s len : ℕ)
    → b.base ≤ s
    → s + len ≤ b.base + b.extent
    → Returns (λ cs. length cs < buffer_size) (fdt_copy_string b buffer_size s len)
unfolding fdt_copy_string
copy_string-Returns b buffer_size s len lo hi =
    guard-Returns-bind _ (not (buffer_size == 0 || ltb buffer_size (len + 1))) _ λ fits.
      weaken-Returns (λ cs. length cs ≡ len) _ _ (λ cs e. ground (arith, e))
        (copy_bytes-Returns b s len lo hi)

module _ (f : Fdt) (is : IsAligned f) (buffer_size : ℕ) where
  text_len-Returns :
      (prop : Property)
      → Inside f prop
      → Ends f.blob prop.value (prop.value + prop.len)
      → Returns (λ n. prop.value + n < prop.value + prop.len) (text_len f.blob prop.value)
  text_len-Returns prop inside ends =
      strlen_at-Returns f.blob prop.value (prop.value + prop.len)
        (omega (arith, inside.start, is.parsed.starts))
        (omega (arith, inside.limit, is.parsed.ends)) (f.blob.extent + 1) 0
        (record {
          nul = ends.nul;
          after = omega (arith, ends.after);
          before = ends.before;
          is_nul = ends.is_nul;
        })
        (omega (arith, inside.start, inside.limit, is.parsed.starts, is.parsed.ends))

  -- The last steps of both: the length is known, the text is copied.
  copy_value-Returns :
      (prop : Property) (len : ℕ)
      → Inside f prop
      → prop.value + len < prop.value + prop.len
      → Returns (λ cs. length cs < buffer_size) (fdt_copy_string f.blob buffer_size prop.value len)
  copy_value-Returns prop len inside less =
      copy_string-Returns f.blob buffer_size prop.value len
        (omega (arith, inside.start, is.parsed.starts))
        (omega (arith, inside.limit, is.parsed.ends))

  length_known :
      (prop : Property) (colon : Option ℕ)
      → Before prop.value (prop.value + prop.len) colon
      → Returns (λ n. prop.value + n < prop.value + prop.len) (text_len f.blob prop.value)
      → Returns
          (λ n. prop.value + n < prop.value + prop.len)
          (elim colon as (λ _. Outcome ℕ) [
            | none ↦ text_len f.blob prop.value
            | some len ↦ done len
          ])
  length_known prop none before h = h
  length_known prop (some len) before h = before

  stdout_path-Returns : Returns (λ cs. length cs < buffer_size) (fdt_get_stdout_path f buffer_size)
  unfolding fdt_get_stdout_path
  stdout_path-Returns =
      Returns-bind _ _ (fdt_find_node_by_path f (text "/chosen")) _
        (find_path-Returns f is.parsed (text "/chosen"))
        λ chosen _ _.
          Returns-bind (Inside f) _
            (or_else (fdt_get_property f chosen (text "stdout-path"))
              (fdt_get_property f chosen (text "linux,stdout-path")))
            _
            (or_else-Returns (Inside f) (fdt_get_property f chosen (text "stdout-path"))
              (fdt_get_property f chosen (text "linux,stdout-path"))
              (get_property-Returns f is (text "stdout-path") refl chosen)
              (get_property-Returns f is (text "linux,stdout-path") refl chosen))
            λ prop _ inside.
              Returns-bind _ _ (fdt_prop_is_string f.blob prop) _
                (is_string-Returns f prop is inside)
                λ _ _ ends.
                  let limit = prop.value + prop.len in
                  Returns-bind _ _ (colon_at f.blob (f.blob.extent + 1) 0 prop.value) _
                    (colon_at-Returns f.blob prop.value limit
                      (omega (arith, inside.start, is.parsed.starts))
                      (omega (arith, inside.limit, is.parsed.ends)) (f.blob.extent + 1) 0
                      (record {
                        nul = ends.nul;
                        after = omega (arith, ends.after);
                        before = ends.before;
                        is_nul = ends.is_nul;
                      })
                      (omega (arith, inside.start, inside.limit, is.parsed.starts, is.parsed.ends)))
                    λ colon _ before.
                      Returns-bind (λ n. prop.value + n < limit) _
                        (elim colon as (λ _. Outcome ℕ) [
                          | none ↦ text_len f.blob prop.value
                          | some len ↦ done len
                        ])
                        _ (length_known prop colon before (text_len-Returns prop inside ends))
                        λ len _ less. copy_value-Returns prop len inside less

  resolve_alias-Returns :
      (alias : Text)
      → IsText alias
      → Returns (λ cs. length cs < buffer_size) (fdt_resolve_alias f alias buffer_size)
  unfolding fdt_resolve_alias
  resolve_alias-Returns alias alias_is =
      Returns-bind _ _ (fdt_find_node_by_path f (text "/aliases")) _
        (find_path-Returns f is.parsed (text "/aliases"))
        λ aliases _ _.
          Returns-bind _ _ (fdt_get_property f aliases alias) _
            (get_property-Returns f is alias alias_is aliases)
            λ prop _ inside.
              Returns-bind _ _ (fdt_prop_is_string f.blob prop) _
                (is_string-Returns f prop is inside)
                λ _ _ ends.
                  Returns-bind _ _ (text_len f.blob prop.value) _
                    (text_len-Returns prop inside ends)
                    λ len _ less. copy_value-Returns prop len inside less

-- When the structure block ends on a token, reading the stdout path and resolving an alias end,
-- read no byte outside the blob, and write a text that fits the buffer with its NUL.
pub fdt_texts-fit :
    (f : Fdt) (alias : Text) (buffer_size : ℕ)
    → IsAligned f
    → IsText alias
    → Returns (λ cs. length cs < buffer_size) (fdt_get_stdout_path f buffer_size)
      × Returns (λ cs. length cs < buffer_size) (fdt_resolve_alias f alias buffer_size)
fdt_texts-fit f alias buffer_size is alias_is =
    (stdout_path-Returns f is buffer_size, resolve_alias-Returns f is buffer_size alias alias_is)
