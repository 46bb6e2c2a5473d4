-- ===== src/Printk/Digits.antt =====
-- The digits of a number, read back.
use native.Mathlib.Nat.{zero-div, div-add-mod', div-lt_iff_lt-mul, mul-le-mul_left, mod-lt}
use risky.Base.{
  ℕ, zero, suc, ◌+◌, ◌-◌, ◌*◌, ◌/◌, ◌%◌, ◌^◌, ◌≤◌, ◌<◌, ◌≡◌, ◌∙◌, ap, sym, Bool, true, false, List,
  [], ◌∷◌, ltb, leb, ◌&&◌, ◌||◌, not, refl, ◌==◌, arith, if◌then◌else◌, pow-two-suc, Bool-cases,
  inl, inr,
}
use risky.Printk.{digit, fill_buffer, buffer_of}

-- The value of a digit in ASCII.
abbrev pub digit_value : ℕ → ℕ
digit_value c = if ltb c 58 then c - 48 else if ltb c 97 then c - 55 else c - 87

-- The number that the digits stand for, with `acc` before them.
abbrev pub numeral : (base acc : ℕ) → List ℕ → ℕ
numeral base acc [] = acc
numeral base acc (c ∷ cs) = numeral base (acc * base + digit_value c) cs

digit_value-digit : (uppercase : Bool) (d : ℕ) → d < 16 → digit_value (digit uppercase d) ≡ d
unfolding digit
digit_value-digit true d lt = ground arith
digit_value-digit false d lt = ground arith

-- `c` is a digit in `base`: `0` to `9`, then the letters in the case that is asked for.
abbrev pub is_digit : (base : ℕ) (uppercase : Bool) (c : ℕ) → Bool
is_digit base uppercase c =
    ((leb 48 c && leb c 57)
      || (leb (if uppercase then 65 else 97) c && leb c (if uppercase then 70 else 102)))
    && ltb (digit_value c) base

-- Each byte is a digit.
abbrev pub AllDigits : (base : ℕ) (uppercase : Bool) → List ℕ → Type 0
AllDigits base uppercase [] = Unit {0}
AllDigits base uppercase (c ∷ cs) = (is_digit base uppercase c ≡ true) × AllDigits base uppercase cs

-- There is a first byte, and it is not `0` unless it is the only one.
abbrev pub leads : List ℕ → Bool
leads [] = false
leads (c ∷ []) = true
leads (c ∷ (d ∷ cs)) = not (c == 48)

-- The bytes are the numeral of `value`: digits of `base`, at least one, with no needless zero in
-- front, that stand for it.
pub record IsNumeral (base : ℕ) (uppercase : Bool) (value : ℕ) (digits : List ℕ) : Type 0 where
  pub all_digits : AllDigits base uppercase digits
  pub led : leads digits ≡ true
  pub reads : numeral base 0 digits ≡ value

-- Without a line feed.
abbrev pub Plain : List ℕ → Type 0
Plain [] = Unit {0}
Plain (c ∷ cs) = ((c == 10) ≡ false) × Plain cs

is_digit_of :
    (base : ℕ) (uppercase : Bool) (d : ℕ)
    → d < base
    → base ≤ 16
    → is_digit base uppercase (digit uppercase d) ≡ true
unfolding digit
is_digit_of base true d lt sixteen = ground arith
is_digit_of base false d lt sixteen = ground arith

digit_not_zero : (uppercase : Bool) (d : ℕ) → 0 < d → d < 16 → (digit uppercase d == 48) ≡ false
unfolding digit
digit_not_zero true d positive lt = ground arith
digit_not_zero false d positive lt = ground arith

leads_cons : (c : ℕ) (cs : List ℕ) → (c == 48) ≡ false → leads (c ∷ cs) ≡ true
leads_cons c [] other = refl
leads_cons c (d ∷ cs) other = rw other refl

module _ (base : ℕ) (uppercase : Bool) (two : 2 ≤ base) (sixteen : base ≤ 16) where
  quotient_lt : (rounds value : ℕ) → value < 2 ^ suc rounds → value / base < 2 ^ rounds
  quotient_lt rounds value lt =
      (div-lt_iff_lt-mul {k = base} {x = value} {y = 2 ^ rounds} (omega arith)).1
        (omega (arith, mul-le-mul_left (2 ^ rounds) two, pow-two-suc rounds))

  read_digit :
      (value : ℕ) → value / base * base + digit_value (digit uppercase (value % base)) ≡ value
  read_digit value =
      ap (λ (x : ℕ). value / base * base + x)
        (digit_value-digit uppercase (value % base)
          (omega (arith, mod-lt value {m = base} (omega arith))))
      ∙ div-add-mod' value base

  fill_buffer_lem :
      (rounds value : ℕ) (buffer : List ℕ)
      → value < 2 ^ rounds
      → numeral base 0 (fill_buffer rounds value base uppercase buffer) ≡ numeral base value buffer
  unfolding fill_buffer
  fill_buffer_lem zero value buffer lt = ap (λ (x : ℕ). numeral base x buffer) (omega arith)
  fill_buffer_lem (suc rounds) value buffer lt =
      let next = ap (λ (x : ℕ). numeral base x buffer) (read_digit value) in
      elim (Bool-cases (value / base == 0)) [
        | inl last ↦
            let none_left : value / base ≡ 0 = ground arith in
            rw last (
              ap
                (λ (x : ℕ).
                  numeral base (x * base + digit_value (digit uppercase (value % base))) buffer)
                (sym none_left)
              ∙ next)
        | inr more ↦ rw more (
            fill_buffer_lem rounds (value / base) (digit uppercase (value % base) ∷ buffer)
              (quotient_lt rounds value lt)
            ∙ next)
      ]

  is_digit-digit : (value : ℕ) → is_digit base uppercase (digit uppercase (value % base)) ≡ true
  is_digit-digit value =
      is_digit_of base uppercase (value % base)
        (omega (arith, mod-lt value {m = base} (omega arith))) sixteen

  fill_buffer-AllDigits :
      (rounds value : ℕ) (buffer : List ℕ)
      → AllDigits base uppercase buffer
      → AllDigits base uppercase (fill_buffer rounds value base uppercase buffer)
  unfolding fill_buffer
  fill_buffer-AllDigits zero value buffer all = all
  fill_buffer-AllDigits (suc rounds) value buffer all = elim (Bool-cases (value / base == 0)) [
    | inl last ↦ rw last (is_digit-digit value, all)
    | inr more ↦ rw more (
        fill_buffer-AllDigits rounds (value / base) (digit uppercase (value % base) ∷ buffer)
          (is_digit-digit value, all))
  ]

  -- The digits of a positive number begin with one that is not 0.
  leads-fill_buffer :
      (rounds value : ℕ) (buffer : List ℕ)
      → 0 < value
      → value < 2 ^ rounds
      → leads (fill_buffer rounds value base uppercase buffer) ≡ true
  unfolding fill_buffer
  leads-fill_buffer zero value buffer positive lt = absurd (omega arith)
  leads-fill_buffer (suc rounds) value buffer positive lt = elim (Bool-cases (value / base == 0)) [
    | inl last ↦
        let none_left : value / base ≡ 0 = ground arith in
        let whole : value % base ≡ value =
          omega (arith, div-add-mod' value base, ap (λ (x : ℕ). x * base) none_left) in
        rw last (
          leads_cons (digit uppercase (value % base)) buffer (
            digit_not_zero uppercase (value % base) (omega arith)
              (omega (arith, mod-lt value {m = base} (omega arith)))))
    | inr more ↦ rw more (
        leads-fill_buffer rounds (value / base) (digit uppercase (value % base) ∷ buffer)
          (ground arith) (quotient_lt rounds value lt))
  ]

  leads_single :
      (rounds value : ℕ)
      → (value / base == 0) ≡ true
      → leads (fill_buffer (suc rounds) value base uppercase []) ≡ true
  unfolding fill_buffer
  leads_single rounds value last = rw last refl

  leads-buffer_of : (value : ℕ) → value < 2 ^ 64 → leads (buffer_of value base uppercase) ≡ true
  leads-buffer_of value lt = elim (Bool-cases (value == 0)) [
    | inl is ↦ leads_single 63 value (ground (arith, zero-div base))
    | inr more ↦ leads-fill_buffer 64 value [] (ground arith) lt
  ]

  buffer_of_lem :
      (value : ℕ) → value < 2 ^ 64 → numeral base 0 (buffer_of value base uppercase) ≡ value
  buffer_of_lem value lt = fill_buffer_lem 64 value [] lt

  -- The bytes that are made of a 64-bit number are its numeral: 64 rounds are enough.
  pub buffer_of-IsNumeral :
      (value : ℕ) → value < 2 ^ 64 → IsNumeral base uppercase value (buffer_of value base uppercase)
  buffer_of-IsNumeral value lt = record {
    all_digits = fill_buffer-AllDigits 64 value [] tt;
    led = leads-buffer_of value lt;
    reads = buffer_of_lem value lt;
  }

  -- No digit is a line feed.
  digit_plain : (value : ℕ) → (digit uppercase (value % base) == 10) ≡ false
  unfolding digit
  digit_plain value = ground arith

  fill_buffer-Plain :
      (rounds value : ℕ) (buffer : List ℕ)
      → Plain buffer
      → Plain (fill_buffer rounds value base uppercase buffer)
  unfolding fill_buffer
  fill_buffer-Plain zero value buffer plain = plain
  fill_buffer-Plain (suc rounds) value buffer plain = elim (Bool-cases (value / base == 0)) [
    | inl last ↦ rw last (digit_plain value, plain)
    | inr more ↦ rw more (
        fill_buffer-Plain rounds (value / base) (digit uppercase (value % base) ∷ buffer)
          (digit_plain value, plain))
  ]

  pub buffer_of-Plain : (value : ℕ) → Plain (buffer_of value base uppercase)
  buffer_of-Plain value = fill_buffer-Plain 64 value [] tt
