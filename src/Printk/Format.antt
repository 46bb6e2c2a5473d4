-- ===== src/Printk/Format.antt =====
-- The interpreter of formats: `vprintk_internal`. The format and the strings are their bytes before
-- the NUL. Going on behind the NUL of the format, or an argument that is missing or of another
-- kind, is a fault.
use risky.Base.{
  ℕ, zero, suc, ◌+◌, ◌-◌, ◌*◌, ◌/◌, ◌%◌, ◌^◌, Bool, true, false, ◌&&◌, ◌||◌, Option, some, List, [],
  ◌∷◌, ltb, leb, ◌==◌, if◌then◌else◌, length, u8, u32, u64, Outcome, done, fault, spent, ◌>>=◌,
}
use risky.Printk.{PrintkState, emit_char, emit_string, emit_padded_string, emit_unsigned}

-- `enum printk_length`
pub data PrintkLength : Type 0 where
  len_default : PrintkLength
  len_char : PrintkLength
  len_short : PrintkLength
  len_long : PrintkLength
  len_llong : PrintkLength
  len_size : PrintkLength
  len_ptrdiff : PrintkLength

-- An argument: the bits of an integer or a pointer, or a string.
pub data Value : Type 0 where
  bits : ℕ → Value
  string : Option (List ℕ) → Value

abbrev pub next_bits : List Value → Outcome (ℕ × List Value)
next_bits [] = fault
next_bits (bits n ∷ args) = done (n, args)
next_bits (string text ∷ args) = fault

abbrev pub next_string : List Value → Outcome (Option (List ℕ) × List Value)
next_string [] = fault
next_string (bits n ∷ args) = fault
next_string (string text ∷ args) = done (text, args)

abbrev pub length_bits : PrintkLength → ℕ
length_bits len_default = 32
length_bits len_char = 8
length_bits len_short = 16
length_bits len_long = 64
length_bits len_llong = 64
length_bits len_size = 64
length_bits len_ptrdiff = 64

unfoldable pub get_unsigned_arg : PrintkLength → List Value → Outcome (ℕ × List Value)
get_unsigned_arg len args = do (n, rest) ← next_bits args; done (n % 2 ^ length_bits len, rest)

-- The word of 64 bits that a signed number is extended to.
abbrev pub sign_extend : (width n : ℕ) → ℕ
sign_extend width n =
    if ltb (n % 2 ^ width) (2 ^ width / 2)
    then n % 2 ^ width
    else n % 2 ^ width + (2 ^ 64 - 2 ^ width)

unfoldable pub get_signed_arg : PrintkLength → List Value → Outcome (ℕ × List Value)
get_signed_arg len args = do
  (n, rest) ← next_bits args
  done (sign_extend (length_bits len) n, rest)

-- The parts of a conversion between `%` and its letter, with what is left of the format.
unfoldable pub parse_pad : List ℕ → ℕ × List ℕ
parse_pad [] = (32, [])
parse_pad (c ∷ cs) = if c == 48 then (48, cs) else (32, c ∷ cs)

unfoldable pub parse_width : (width : ℕ) → List ℕ → ℕ × List ℕ
parse_width width [] = (width, [])
parse_width width (c ∷ cs) = elim (leb 48 c && leb c 57) [
  | true ↦ parse_width (u32 (width * 10 + (c - 48))) cs
  | false ↦ (width, c ∷ cs)
]

-- The letter once more, or not.
abbrev pub doubled : (letter : ℕ) (twice once : PrintkLength) → List ℕ → PrintkLength × List ℕ
doubled letter twice once [] = (once, [])
doubled letter twice once (c ∷ cs) = if c == letter then (twice, cs) else (once, c ∷ cs)

unfoldable pub parse_length : List ℕ → PrintkLength × List ℕ
parse_length [] = (len_default, [])
parse_length (c ∷ cs) =
    if c == 104
    then doubled 104 len_char len_short cs
    else if c == 108
    then doubled 108 len_llong len_long cs
    else if c == 122
    then (len_size, cs)
    else if c == 116
    then (len_ptrdiff, cs)
    else (len_default, c ∷ cs)

-- `case 'd'` and `case 'i'`
unfoldable pub emit_signed : (uptime_ms value width pad : ℕ) → PrintkState → PrintkState
emit_signed uptime_ms value width pad s =
    if leb (2 ^ 63) value
    then emit_unsigned uptime_ms (2 ^ 64 - 1 - value + 1) 10 false width pad
        (emit_char uptime_ms 45 s)
    else emit_unsigned uptime_ms value 10 false width pad s

abbrev pub after {ℓ} :
    {A : Type ℓ} → Outcome (A × List Value) → (A → PrintkState) → Outcome (PrintkState × List Value)
after arg emit = arg >>= λ r. done (emit (r.0), r.1)

-- The `switch` on the letter.
unfoldable pub convert :
    (uptime_ms letter : ℕ)
    → PrintkLength
    → (width pad : ℕ) → List Value
    → PrintkState
    → Outcome (PrintkState × List Value)
convert uptime_ms letter len width pad args s =
    if letter == 37
    then done (emit_char uptime_ms 37 s, args)
    else if letter == 99
    then after (next_bits args) (λ n. emit_char uptime_ms (u8 n) s)
    else if letter == 115
    then after (next_string args) (λ text. emit_padded_string uptime_ms text width pad s)
    else if letter == 100 || letter == 105
    then after (get_signed_arg len args) (λ n. emit_signed uptime_ms n width pad s)
    else if letter == 117
    then after (get_unsigned_arg len args) (λ n. emit_unsigned uptime_ms n 10 false width pad s)
    else if letter == 120
    then after (get_unsigned_arg len args) (λ n. emit_unsigned uptime_ms n 16 false width pad s)
    else if letter == 88
    then after (get_unsigned_arg len args) (λ n. emit_unsigned uptime_ms n 16 true width pad s)
    else if letter == 112
    then after (next_bits args) (λ n.
      emit_unsigned uptime_ms (u64 n) 16 false 16 48
        (emit_string uptime_ms (some (48 ∷ 120 ∷ [])) s))
    else done (emit_char uptime_ms letter (emit_char uptime_ms 37 s), args)

-- The conversion behind a `%`, with what is left of the format.
unfoldable pub conversion :
    (uptime_ms : ℕ)
    → List ℕ
    → List Value
    → PrintkState
    → Outcome (List ℕ × (PrintkState × List Value))
conversion uptime_ms fmt args s =
    let (pad, fmt1) = parse_pad fmt in
    let (width, fmt2) = parse_width 0 fmt1 in
    let (len, fmt3) = parse_length fmt2 in
    elim fmt3 [
      | [] ↦ fault
      | letter ∷ rest ↦ do
        (s', args') ← convert uptime_ms letter len width pad args s
        done (rest, (s', args'))
    ]

unfoldable pub vprintk_loop :
    (rounds uptime_ms : ℕ) → (fmt : List ℕ) → List Value → PrintkState → Outcome PrintkState
vprintk_loop zero uptime_ms fmt args s = spent
vprintk_loop (suc rounds) uptime_ms [] args s = done s
vprintk_loop (suc rounds) uptime_ms (c ∷ fmt) args s = elim (c == 37) [
  | false ↦ vprintk_loop rounds uptime_ms fmt args (emit_char uptime_ms c s)
  | true ↦ elim fmt [
    | [] ↦ done s
    | d ∷ ds ↦ do
      (rest, (s', args')) ← conversion uptime_ms (d ∷ ds) args s
      vprintk_loop rounds uptime_ms rest args' s'
  ]
]

-- One round for each byte of the format and one for its end.
unfoldable pub vprintk_internal :
    (uptime_ms : ℕ)
    → (prefix_enabled : Bool) → (fmt : List ℕ) → List Value
    → (output : List ℕ) → Outcome PrintkState
vprintk_internal uptime_ms prefix_enabled fmt args output =
    vprintk_loop (length fmt + 1) uptime_ms fmt args (record {
      prefix_enabled = prefix_enabled;
      at_line_start = true;
      written = 0;
      output = output;
    })

-- What was put out, and the result.
unfoldable pub vkprintf :
    (uptime_ms : ℕ) → (fmt : List ℕ) → List Value → (output : List ℕ) → Outcome (List ℕ × ℕ)
vkprintf uptime_ms fmt args output = do
  s ← vprintk_internal uptime_ms false fmt args output
  done (s.output, s.written)

unfoldable pub vklog :
    (uptime_ms : ℕ) → (fmt : List ℕ) → List Value → (output : List ℕ) → Outcome (List ℕ × ℕ)
vklog uptime_ms fmt args output = do
  s ← vprintk_internal uptime_ms true fmt args output
  (output', written) ← vkprintf uptime_ms (10 ∷ []) [] s.output
  done (output', s.written + written)
