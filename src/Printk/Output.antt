-- ===== src/Printk/Output.antt =====
-- What `emit_unsigned` puts out, with the prefix off.
use risky.Base.{
  ℕ, zero, suc, ◌+◌, ◌-◌, ◌^◌, ◌≤◌, ◌<◌, ◌≡◌, ◌∙◌, ap, refl, Bool, false, ◌||◌, List, [], ◌∷◌, ltb,
  ◌==◌, arith, length, Bool-cases, inl, inr, ◌≢◌, eq_of_ne,
}
use risky.Printk.{
  PrintkState, emit_raw_char, emit_log_prefix, emit_char, emit_chars, emit_padding, emit_unsigned,
  buffer_of,
}
use risky.Printk.Digits.{Plain, IsNumeral, buffer_of-IsNumeral, buffer_of-Plain}

-- `count` times the byte `c`, put out after `output`.
abbrev pub pads : (count c : ℕ) → List ℕ → List ℕ
pads zero c output = output
pads (suc count) c output = pads count c (c ∷ output)

-- The bytes `cs`, put out after `output`.
abbrev pub onto : List ℕ → List ℕ → List ℕ
onto [] output = output
onto (c ∷ cs) output = onto cs (c ∷ output)

-- From `s` to `s'`, the output grows to `output`, by `count` bytes, with the prefix off.
pub record Grows (s s' : PrintkState) (output : List ℕ) (count : ℕ) : Type 0 where
  pub prefix : s'.prefix_enabled ≡ false
  pub out : s'.output ≡ output
  pub count_up : s'.written ≡ s.written + count

module _ (uptime_ms : ℕ) where
  emit_char-Grows :
      (c : ℕ) (s : PrintkState)
      → s.prefix_enabled ≡ false
      → (c == 10) ≡ false
      → Grows s (emit_char uptime_ms c s) (c ∷ s.output) 1
  unfolding emit_char emit_log_prefix emit_raw_char
  emit_char-Grows c s off plain = record {
    prefix = ground (arith, off, plain);
    out = ground (arith, off, plain);
    count_up = ground (arith, off, plain);
  }

  pub emit_chars-Grows :
      (cs : List ℕ) (s : PrintkState)
      → s.prefix_enabled ≡ false
      → Plain cs
      → Grows s (emit_chars uptime_ms cs s) (onto cs s.output) (length cs)
  unfolding emit_chars
  emit_chars-Grows [] s off plain = record { prefix = off; out = refl; count_up = omega arith }
  emit_chars-Grows (c ∷ cs) s off plain =
      let one = emit_char-Grows c s off (plain.0) in
      let rest = emit_chars-Grows cs (emit_char uptime_ms c s) one.prefix (plain.1) in
      record {
        prefix = rest.prefix;
        out = rest.out ∙ ap (λ (o : List ℕ). onto cs o) one.out;
        count_up = omega (arith, rest.count_up, one.count_up);
      }

  emit_padding-Grows :
      (len width pad : ℕ) (s : PrintkState)
      → s.prefix_enabled ≡ false
      → (pad == 10) ≡ false
      → Grows s
          (emit_padding uptime_ms len width pad s)
          (pads (width - len) pad s.output)
          (width - len)
  unfolding emit_padding
  emit_padding-Grows len zero pad s off plain =
      let none_left : 0 - len ≡ 0 = omega arith in
      rw none_left (record { prefix = off; out = refl; count_up = omega arith })
  emit_padding-Grows len (suc width) pad s off plain = elim (Bool-cases (ltb len (suc width))) [
    | inl more ↦
        let one = emit_char-Grows pad s off plain in
        let rest = emit_padding-Grows len width pad (emit_char uptime_ms pad s) one.prefix plain in
        let next : suc width - len ≡ suc (width - len) = ground arith in
        rw (more, next)
          (record {
            prefix = rest.prefix;
            out = rest.out ∙ ap (λ (o : List ℕ). pads (width - len) pad o) one.out;
            count_up = omega (arith, rest.count_up, one.count_up);
          })
    | inr done ↦
        let none_left : suc width - len ≡ 0 = ground arith in
        rw (done, none_left) (record { prefix = off; out = refl; count_up = omega arith })
  ]

-- The bytes after the old output are the padding up to the width and the numeral.
pub record IsPrinted (value base : ℕ) (uppercase : Bool) (width pad : ℕ) (s s' : PrintkState)
    : Type 0 where
  pub digits : List ℕ
  pub reads : IsNumeral base uppercase value digits
  pub out : s'.output ≡ onto digits (pads (width - length digits) pad s.output)
  pub count_up : s'.written ≡ s.written + (width - length digits) + length digits

-- With the prefix off and a padding byte that is no line feed, `emit_unsigned` of a 64-bit number
-- in a base from 2 to 16 puts out the padding up to the width and then the numeral of the number
-- (at least one byte, each a digit of the base in the case asked for, with no needless zero in
-- front, read back as the number), and counts the bytes.
pub emit_unsigned-IsPrinted :
    (uptime_ms value base : ℕ) (uppercase : Bool) (width pad : ℕ) (s : PrintkState)
    → s.prefix_enabled ≡ false
    → pad ≢ 10
    → 2 ≤ base
    → base ≤ 16
    → value < 2 ^ 64
    → IsPrinted value base uppercase width pad s
        (emit_unsigned uptime_ms value base uppercase width pad s)
unfolding emit_unsigned
emit_unsigned-IsPrinted uptime_ms value base uppercase width pad s off plain two sixteen small =
    let digits = buffer_of value base uppercase in
    let in_range : (ltb base 2 || ltb 16 base) ≡ false = ground arith in
    let padded =
      emit_padding-Grows uptime_ms (length digits) width pad s off (eq_of_ne pad 10 plain) in
    let printed =
      emit_chars-Grows uptime_ms digits (emit_padding uptime_ms (length digits) width pad s)
        padded.prefix (buffer_of-Plain base uppercase two sixteen value) in
    rw in_range (record {
      digits = digits;
      reads = buffer_of-IsNumeral base uppercase two sixteen value small;
      out = printed.out ∙ ap (λ (o : List ℕ). onto digits o) padded.out;
      count_up = omega (arith, printed.count_up, padded.count_up);
    })
