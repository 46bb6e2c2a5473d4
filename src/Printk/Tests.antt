-- ===== src/Printk/Tests.antt =====
-- A number in hexadecimal.
use risky.Base.{ℕ, ◌+◌, ◌≡◌, false, List, [], ◌∷◌, ◌++◌, length, none, arith, refl, done, fault}
use risky.Printk.{
  PrintkState, emit_unsigned, emit_padding, emit_chars, emit_char, emit_log_prefix, emit_raw_char,
  emit_padded_string, fill_buffer, digit, buffer_of,
}
use risky.Printk.Output.{IsPrinted, emit_unsigned-IsPrinted, onto}
use risky.Printk.Digits.{IsNumeral}
use risky.Printk.Format.{
  bits, string, vkprintf, vprintk_internal, vprintk_loop, conversion, parse_pad, parse_width,
  parse_length, convert, get_signed_arg, emit_signed,
}
use risky.Printk.Message.{vkprintf_hex}

abbrev quiet : PrintkState
quiet = record { prefix_enabled = false; at_line_start = false; written = 3; output = [] }

emit_unsigned-IsPrinted_example :
    IsPrinted 48879 16 false 8 48 quiet (emit_unsigned 5 48879 16 false 8 48 quiet)
emit_unsigned-IsPrinted_example =
    emit_unsigned-IsPrinted 5 48879 16 false 8 48 quiet refl (omega arith) (omega arith)
      (omega arith) (omega arith)

-- "sepc=" and a line of text behind the number
abbrev label : List ℕ
label = 115 ∷ 101 ∷ 112 ∷ 99 ∷ 61 ∷ []

vkprintf_test :
    vkprintf 0 (37 ∷ 48 ∷ 52 ∷ 100 ∷ 37 ∷ 115 ∷ []) (bits 4294967289 ∷ string none ∷ []) []
    ≡ done (41 ∷ 108 ∷ 108 ∷ 117 ∷ 110 ∷ 40 ∷ 55 ∷ 48 ∷ 48 ∷ 48 ∷ 45 ∷ [], 11)
unfolding vkprintf vprintk_internal vprintk_loop conversion parse_pad parse_width parse_length
    convert get_signed_arg emit_signed emit_unsigned emit_padding emit_chars emit_char
    emit_log_prefix emit_raw_char emit_padded_string fill_buffer digit
vkprintf_test = refl

-- A format that ends inside a conversion.
cut_off_test : vkprintf 0 (37 ∷ 108 ∷ []) (bits 1 ∷ []) [] ≡ fault
unfolding vkprintf vprintk_internal vprintk_loop conversion parse_pad parse_width parse_length
cut_off_test = refl

vkprintf_hex_example :
    (vkprintf 5 (label ++ (37 ∷ 108 ∷ 120 ∷ 46 ∷ [])) (bits 48879 ∷ []) []
      ≡ done (
        onto (46 ∷ []) (onto (buffer_of 48879 16 false) (onto label [])),
        length label + length (buffer_of 48879 16 false) + 1,
      ))
    × IsNumeral 16 false 48879 (buffer_of 48879 16 false)
vkprintf_hex_example =
    vkprintf_hex 5 label (46 ∷ []) 48879 [] (refl, (refl, (refl, (refl, (refl, tt))))) (refl, tt)
      (refl, (refl, (refl, (refl, (refl, tt))))) (refl, tt) (omega arith)
