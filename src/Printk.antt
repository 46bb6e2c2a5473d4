-- ===== src/Printk.antt =====
-- kernel/src/lib/printk.c: the emitting functions; Format: the rest. `output` is what `printk_putc` was given, the
-- last byte first. The uptime that the prefix shows is an argument, and so are the strings, as
-- lists of their bytes before the NUL; `none` is `NULL`. `written` has no upper bound here.
pub mod Digits
pub mod Output
pub mod Format
pub mod Stops
pub mod Message
pub mod Tests
use risky.Base.{
  ℕ, zero, suc, ◌+◌, ◌-◌, ◌/◌, ◌%◌, Bool, true, false, not, ◌&&◌, ◌||◌, Option, none, some, List,
  [], ◌∷◌, ltb, ◌==◌, if◌then◌else◌, length,
}

-- `struct printk_state`, with the output.
pub record PrintkState : Type 0 where
  pub prefix_enabled : Bool
  pub at_line_start : Bool
  pub written : ℕ
  pub output : List ℕ

unfoldable pub emit_raw_char : ℕ → PrintkState → PrintkState
emit_raw_char c s =
    if c == 10
    then record s { output = 10 ∷ 13 ∷ s.output; written = s.written + 2; at_line_start = true }
    else record s { output = c ∷ s.output; written = s.written + 1 }

-- `digits[value % base]`
unfoldable pub digit : (uppercase : Bool) → ℕ → ℕ
digit uppercase d = if ltb d 10 then 48 + d else if uppercase then 55 + d else 87 + d

-- The buffer after the `do` loop, its last byte first; `rounds` bounds the rounds.
unfoldable pub fill_buffer : (rounds value base : ℕ) (uppercase : Bool) → List ℕ → List ℕ
fill_buffer zero value base uppercase buffer = buffer
fill_buffer (suc rounds) value base uppercase buffer =
    let buffer' = digit uppercase (value % base) ∷ buffer in
    let rest = fill_buffer rounds (value / base) base uppercase buffer' in
    if value / base == 0 then buffer' else rest

-- The bytes of `buffer`, from the last one back.
abbrev pub buffer_of : (value base : ℕ) (uppercase : Bool) → List ℕ
buffer_of value base uppercase = fill_buffer 64 value base uppercase []

unfoldable pub emit_raw_chars : List ℕ → PrintkState → PrintkState
emit_raw_chars [] s = s
emit_raw_chars (c ∷ cs) s = emit_raw_chars cs (emit_raw_char c s)

unfoldable pub emit_raw_unsigned : (value base : ℕ) (uppercase : Bool) → PrintkState → PrintkState
emit_raw_unsigned value base uppercase s =
    if ltb base 2 || ltb 16 base then s else emit_raw_chars (buffer_of value base uppercase) s

unfoldable pub emit_log_prefix : (uptime_ms : ℕ) → PrintkState → PrintkState
emit_log_prefix uptime_ms s =
    let seconds = uptime_ms / 1000 in
    let millis = uptime_ms % 1000 in
    if not s.prefix_enabled || not s.at_line_start
    then s
    else (let s1 = emit_raw_unsigned seconds 10 false (emit_raw_char 91 s) in
        let s2 = emit_raw_char 46 s1 in
        let s3 = emit_raw_char (48 + millis / 100 % 10) s2 in
        let s4 = emit_raw_char (48 + millis / 10 % 10) s3 in
        let s5 = emit_raw_char (48 + millis % 10) s4 in
        record (emit_raw_char 32 (emit_raw_char 93 s5)) { at_line_start = false })

unfoldable pub emit_char : (uptime_ms : ℕ) → ℕ → PrintkState → PrintkState
emit_char uptime_ms c s =
    let s' = emit_raw_char c (emit_log_prefix uptime_ms s) in
    if not (c == 10) then record s' { at_line_start = false } else s'

unfoldable pub emit_chars : (uptime_ms : ℕ) → List ℕ → PrintkState → PrintkState
emit_chars uptime_ms [] s = s
emit_chars uptime_ms (c ∷ cs) s = emit_chars uptime_ms cs (emit_char uptime_ms c s)

-- "(null)"
abbrev pub null_text : List ℕ
null_text = 40 ∷ 110 ∷ 117 ∷ 108 ∷ 108 ∷ 41 ∷ []

abbrev pub text_of : Option (List ℕ) → List ℕ
text_of none = null_text
text_of (some text) = text

unfoldable pub emit_string : (uptime_ms : ℕ) → Option (List ℕ) → PrintkState → PrintkState
emit_string uptime_ms text s = emit_chars uptime_ms (text_of text) s

-- `while (len < width)`, which lowers `width` in each round.
unfoldable pub emit_padding : (uptime_ms len width pad : ℕ) → PrintkState → PrintkState
emit_padding uptime_ms len zero pad s = s
emit_padding uptime_ms len (suc width) pad s =
    if ltb len (suc width)
    then emit_padding uptime_ms len width pad (emit_char uptime_ms pad s)
    else s

unfoldable pub emit_padded_string :
    (uptime_ms : ℕ) → Option (List ℕ) → (width pad : ℕ) → PrintkState → PrintkState
emit_padded_string uptime_ms text width pad s =
    emit_chars uptime_ms (text_of text) (emit_padding uptime_ms (length (text_of text)) width pad s)

unfoldable pub emit_unsigned :
    (uptime_ms value base : ℕ) (uppercase : Bool) (width pad : ℕ) → PrintkState → PrintkState
emit_unsigned uptime_ms value base uppercase width pad s =
    let buffer = buffer_of value base uppercase in
    if ltb base 2 || ltb 16 base
    then s
    else emit_chars uptime_ms buffer (emit_padding uptime_ms (length buffer) width pad s)
