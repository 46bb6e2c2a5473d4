-- ===== src/Printk/Message.antt =====
-- What a format with a number puts out.
use risky.Base.{
  ℕ, suc, ◌+◌, ◌%◌, ◌^◌, ◌<◌, ◌≡◌, refl, ap, ◌∙◌, arith, true, false, List, [], ◌∷◌, ◌++◌, ◌==◌,
  length, Outcome, done, on_false, length-append,
}
use risky.Printk.{PrintkState, emit_char, emit_chars, emit_padding, emit_unsigned, buffer_of}
use risky.Printk.Digits.{Plain, IsNumeral, buffer_of-IsNumeral, buffer_of-Plain}
use risky.Printk.Output.{onto, emit_chars-Grows}
use risky.Printk.Format.{
  Value, bits, get_unsigned_arg, parse_pad, parse_width, parse_length, convert, conversion,
  vprintk_loop, vprintk_internal, vkprintf,
}

-- No byte is a `%`.
abbrev pub NoPercent : List ℕ → Type 0
NoPercent [] = Unit {0}
NoPercent (c ∷ cs) = ((c == 37) ≡ false) × NoPercent cs

-- One round for each byte of the text, and `rest`.
abbrev rounds_for : List ℕ → ℕ → ℕ
rounds_for [] rest = rest
rounds_for (c ∷ cs) rest = suc (rounds_for cs rest)

rounds_for_length : (cs : List ℕ) (rest : ℕ) → rounds_for cs rest ≡ length cs + rest
rounds_for_length [] rest = omega arith
rounds_for_length (c ∷ cs) rest = omega (arith, rounds_for_length cs rest)

module _ (uptime_ms : ℕ) where
  literal_lem :
      (cs fmt : List ℕ) (args : List Value) (s : PrintkState) (rest : ℕ)
      → NoPercent cs
      → vprintk_loop (rounds_for cs rest) uptime_ms (cs ++ fmt) args s
        ≡ vprintk_loop rest uptime_ms fmt args (emit_chars uptime_ms cs s)
  unfolding vprintk_loop emit_chars
  literal_lem [] fmt args s rest plain = refl
  literal_lem (c ∷ cs) fmt args s rest plain =
      on_false (c == 37) _ _ (plain.0)
        (literal_lem cs fmt args (emit_char uptime_ms c s) rest (plain.1))

  hex_lem :
      (fmt : List ℕ) (v : ℕ) (s : PrintkState) (rest : ℕ)
      → vprintk_loop (suc rest) uptime_ms (37 ∷ 108 ∷ 120 ∷ fmt) (bits v ∷ []) s
        ≡ vprintk_loop rest uptime_ms fmt []
            (emit_chars uptime_ms (buffer_of (v % 2 ^ 64) 16 false) s)
  unfolding vprintk_loop conversion parse_pad parse_width parse_length convert get_unsigned_arg
      emit_unsigned emit_padding
  hex_lem fmt v s rest = refl

  literal_end :
      (cs : List ℕ) (args : List Value) (s : PrintkState) (rest : ℕ)
      → NoPercent cs
      → vprintk_loop (rounds_for cs (suc rest)) uptime_ms cs args s
        ≡ done (emit_chars uptime_ms cs s)
  unfolding vprintk_loop emit_chars
  literal_end [] args s rest plain = refl
  literal_end (c ∷ cs) args s rest plain =
      on_false (c == 37) _ _ (plain.0)
        (literal_end cs args (emit_char uptime_ms c s) rest (plain.1))

  -- The three texts that are put out one after the other.
  message_lem :
      (before after : List ℕ) (v : ℕ) (s : PrintkState)
      → NoPercent before
      → NoPercent after
      → vprintk_loop
          (length (before ++ (37 ∷ 108 ∷ 120 ∷ after)) + 1)
          uptime_ms
          (before ++ (37 ∷ 108 ∷ 120 ∷ after))
          (bits v ∷ [])
          s
        ≡ done (
            emit_chars uptime_ms after (
              emit_chars uptime_ms
                (buffer_of (v % 2 ^ 64) 16 false)
                (emit_chars uptime_ms before s)))
  message_lem before after v s plain plain' =
      let rounds : length (before ++ (37 ∷ 108 ∷ 120 ∷ after)) + 1
          ≡ rounds_for before (suc (rounds_for after (suc 2))) =
        omega (
          arith,
          length-append before (37 ∷ 108 ∷ 120 ∷ after),
          rounds_for_length before (suc (rounds_for after (suc 2))),
          rounds_for_length after (suc 2),
        ) in
      rw rounds (
        literal_lem before (37 ∷ 108 ∷ 120 ∷ after) (bits v ∷ []) s _ plain
        ∙ hex_lem after v (emit_chars uptime_ms before s) (rounds_for after (suc 2))
        ∙ literal_end after [] _ 2 plain')

-- What a caller sees of the last state.
abbrev seen : List ℕ → ℕ → Outcome (List ℕ × ℕ)
seen o n = done (o, n)

finish : {o o' : List ℕ} {n n' : ℕ} → o ≡ o' → n ≡ n' → seen o n ≡ seen o' n'
finish {o} {o'} {n} e e' = ap (λ q. seen q n) e ∙ ap (seen o') e'

-- `kprintf` of a text, `%lx`, and another text, where neither text has a `%` or a line feed, puts
-- out the first text, the numeral of the 64-bit number in base 16 (at least one byte, each a
-- lower-case digit, with no needless zero in front, read back as the number), and the second text,
-- and returns how many bytes that are.
pub vkprintf_hex :
    (uptime_ms : ℕ) (before after : List ℕ) (v : ℕ) (output : List ℕ)
    → NoPercent before
    → NoPercent after
    → Plain before
    → Plain after
    → v < 2 ^ 64
    → (vkprintf uptime_ms (before ++ (37 ∷ 108 ∷ 120 ∷ after)) (bits v ∷ []) output
        ≡ done (
          onto after (onto (buffer_of v 16 false) (onto before output)),
          length before + length (buffer_of v 16 false) + length after,
        ))
      × IsNumeral 16 false v (buffer_of v 16 false)
unfolding vkprintf vprintk_internal
vkprintf_hex uptime_ms before after v output free free' plain plain' small =
    let start : PrintkState = record {
      prefix_enabled = false;
      at_line_start = true;
      written = 0;
      output = output;
    } in
    let word : v % 2 ^ 64 ≡ v = omega arith in
    let digits = buffer_of v 16 false in
    let one = emit_chars-Grows uptime_ms before start refl plain in
    let two =
      emit_chars-Grows uptime_ms digits _ one.prefix
        (buffer_of-Plain 16 false (omega arith) (omega arith) v) in
    let three = emit_chars-Grows uptime_ms after _ two.prefix plain' in
    (
      rw (message_lem uptime_ms before after v start free free', word)
          (finish
            (three.out
              ∙ ap (λ (o : List ℕ). onto after o)
                  (two.out ∙ ap (λ (o : List ℕ). onto digits o) one.out))
            (omega (arith, one.count_up, two.count_up, three.count_up))),
      buffer_of-IsNumeral 16 false (omega arith) (omega arith) v small,
    )
