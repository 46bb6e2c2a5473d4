-- ===== src/Printk/Stops.antt =====
-- The interpreter of formats ends.
use mathlib.Core.Path.{subst}
use risky.Base.{
  ℕ, zero, suc, ◌+◌, ◌-◌, ◌*◌, ◌≤◌, ◌<◌, arith, Bool, true, false, ◌&&◌, List, [], ◌∷◌, leb, ◌==◌,
  if◌then◌else◌, length, u32, Outcome, done, fault, spent, ◌>>=◌, Stops, Stops-bind, test-Stops,
  ◌≢◌,
}
use risky.Printk.{PrintkState, emit_char}
use risky.Printk.Format.{
  PrintkLength, len_char, len_short, len_long, len_llong, Value, bits, string, next_bits,
  next_string, get_unsigned_arg, get_signed_arg, parse_pad, parse_width, doubled, parse_length,
  after, convert, conversion, vprintk_loop, vprintk_internal,
}

parse_pad_shorter : (fmt : List ℕ) → length ((parse_pad fmt).1) ≤ length fmt
unfolding parse_pad
parse_pad_shorter [] = omega arith
parse_pad_shorter (c ∷ cs) = pick (c == 48)
  where
    pick :
        (test : Bool)
        → length ((if◌then◌else◌ {A = ℕ × List ℕ} test (48, cs) (32, c ∷ cs)).1) ≤ suc (length cs)
    pick true = omega arith
    pick false = omega arith

parse_width_shorter : (width : ℕ) (fmt : List ℕ) → length ((parse_width width fmt).1) ≤ length fmt
unfolding parse_width
parse_width_shorter width [] = omega arith
parse_width_shorter width (c ∷ cs) =
    pick (leb 48 c && leb c 57) (parse_width_shorter (u32 (width * 10 + (c - 48))) cs)
  where
    pick :
        (test : Bool)
        → length ((parse_width (u32 (width * 10 + (c - 48))) cs).1) ≤ length cs
        → length (
            (elim test as (λ _. ℕ × List ℕ) [
              | true ↦ parse_width (u32 (width * 10 + (c - 48))) cs
              | false ↦ (width, c ∷ cs)
            ]).1)
          ≤ suc (length cs)
    pick true h = omega arith
    pick false h = omega arith

if_shorter :
    (bound : ℕ) (test : Bool) (x y : PrintkLength × List ℕ)
    → length (x.1) ≤ bound
    → length (y.1) ≤ bound
    → length ((if test then x else y).1) ≤ bound
if_shorter bound true x y h k = h
if_shorter bound false x y h k = k

doubled_shorter :
    (letter : ℕ) (twice once : PrintkLength) (fmt : List ℕ)
    → length ((doubled letter twice once fmt).1) ≤ suc (length fmt)
doubled_shorter letter twice once [] = omega arith
doubled_shorter letter twice once (c ∷ cs) =
    if_shorter (suc (suc (length cs))) (c == letter) (twice, cs) (once, c ∷ cs) (omega arith)
      (omega arith)

parse_length_shorter : (fmt : List ℕ) → length ((parse_length fmt).1) ≤ length fmt
unfolding parse_length
parse_length_shorter [] = omega arith
parse_length_shorter (c ∷ cs) =
    let n = suc (length cs) in
    if_shorter n (c == 104) _ _ (doubled_shorter 104 len_char len_short cs) (
      if_shorter n (c == 108) _ _ (doubled_shorter 108 len_llong len_long cs) (
        if_shorter n (c == 122) _ _ (omega arith)
          (if_shorter n (c == 116) _ _ (omega arith) (omega arith))))

-- No argument takes rounds.
abbrev Any : {A : Type 0} → A → Type 0
Any a = Unit {0}

next_bits-Stops : (args : List Value) → Stops Any (next_bits args)
next_bits-Stops [] = tt
next_bits-Stops (bits n ∷ args) = tt
next_bits-Stops (string text ∷ args) = tt

next_string-Stops : (args : List Value) → Stops Any (next_string args)
next_string-Stops [] = tt
next_string-Stops (bits n ∷ args) = tt
next_string-Stops (string text ∷ args) = tt

unsigned-Stops : (len : PrintkLength) (args : List Value) → Stops Any (get_unsigned_arg len args)
unfolding get_unsigned_arg
unsigned-Stops len args = Stops-bind Any Any (next_bits args) _ (next_bits-Stops args) λ a _. tt

signed-Stops : (len : PrintkLength) (args : List Value) → Stops Any (get_signed_arg len args)
unfolding get_signed_arg
signed-Stops len args = Stops-bind Any Any (next_bits args) _ (next_bits-Stops args) λ a _. tt

abbrev Converted : Type 0
Converted = PrintkState × List Value

after-Stops :
    {A : Type 0} (arg : Outcome (A × List Value)) (emit : A → PrintkState)
    → Stops Any arg
    → Stops {A = Converted} Any (after arg emit)
after-Stops arg emit h = Stops-bind Any Any arg _ h λ a _. tt

done-Stops : (r : Converted) → Stops {A = Converted} Any (done r)
done-Stops r = tt

if-Stops :
    (test : Bool) (x y : Outcome Converted)
    → Stops Any x
    → Stops Any y
    → Stops {A = Converted} Any (if test then x else y)
if-Stops true x y h k = h
if-Stops false x y h k = k

convert-Stops :
    (uptime_ms letter : ℕ) (len : PrintkLength) (width pad : ℕ) (args : List Value)
    (s : PrintkState)
    → Stops {A = Converted} Any (convert uptime_ms letter len width pad args s)
unfolding convert
convert-Stops uptime_ms letter len width pad args s =
    search
      (
        if-Stops, after-Stops, done-Stops, next_bits-Stops, next_string-Stops, signed-Stops,
        unsigned-Stops,
      )
      depth 12

-- The conversion takes its letter at least.
abbrev Shorter : (bound : ℕ) → List ℕ × Converted → Type 0
Shorter bound r = length (r.0) < bound

conversion-Stops :
    (uptime_ms : ℕ) (fmt : List ℕ) (args : List Value) (s : PrintkState)
    → Stops (Shorter (length fmt)) (conversion uptime_ms fmt args s)
unfolding conversion
conversion-Stops uptime_ms fmt args s =
    let fmt1 = (parse_pad fmt).1 in
    let fmt2 = (parse_width 0 fmt1).1 in
    let shorter : length ((parse_length fmt2).1) ≤ length fmt =
      omega (arith, parse_pad_shorter fmt, parse_width_shorter 0 fmt1, parse_length_shorter fmt2) in
    go ((parse_length fmt2).1) shorter
  where
    go :
        (fmt3 : List ℕ)
        → length fmt3 ≤ length fmt
        → Stops (Shorter (length fmt)) (elim fmt3 as (λ _. Outcome (List ℕ × Converted)) [
          | [] ↦ fault
          | letter ∷ rest ↦
              convert uptime_ms letter
                (parse_length ((parse_width 0 ((parse_pad fmt).1)).1)).0
                (parse_width 0 ((parse_pad fmt).1)).0
                (parse_pad fmt).0
                args
                s
              >>= λ r. done (rest, (r.0, r.1))
        ])
    go [] h = tt
    go (letter ∷ rest) h =
        Stops-bind Any (Shorter (length fmt)) (convert uptime_ms letter _ _ _ args s) _
          (convert-Stops uptime_ms letter _ _ _ args s) λ r _. omega arith

vprintk_loop-Stops :
    (rounds uptime_ms : ℕ) (fmt : List ℕ) (args : List Value) (s : PrintkState)
    → length fmt < rounds
    → Stops {A = PrintkState} Any (vprintk_loop rounds uptime_ms fmt args s)
unfolding vprintk_loop
vprintk_loop-Stops zero uptime_ms fmt args s enough = absurd (omega arith)
vprintk_loop-Stops (suc rounds) uptime_ms [] args s enough = tt
vprintk_loop-Stops (suc rounds) uptime_ms (c ∷ []) args s enough =
    test-Stops Any (c == 37) _ _ (λ _. tt)
      λ _. vprintk_loop-Stops rounds uptime_ms [] args (emit_char uptime_ms c s) (omega arith)
vprintk_loop-Stops (suc rounds) uptime_ms (c ∷ d ∷ ds) args s enough =
    test-Stops Any (c == 37) _ _
      (λ _.
        Stops-bind (Shorter (length (d ∷ ds))) Any (conversion uptime_ms (d ∷ ds) args s) _
          (conversion-Stops uptime_ms (d ∷ ds) args s)
          λ r shorter. vprintk_loop-Stops rounds uptime_ms (r.0) (r.1.1) (r.1.0) (omega arith))
      λ _. vprintk_loop-Stops rounds uptime_ms (d ∷ ds) args (emit_char uptime_ms c s) (omega arith)

-- For every format and all arguments, one round for each byte of the format and one for its end
-- are enough: the interpreter ends.
vprintk_internal_ends :
    (uptime_ms : ℕ) (prefix_enabled : Bool) (fmt : List ℕ) (args : List Value) (output : List ℕ)
    → vprintk_internal uptime_ms prefix_enabled fmt args output ≢ spent
unfolding vprintk_internal
vprintk_internal_ends uptime_ms prefix_enabled fmt args output e =
    subst (Stops {A = PrintkState} Any) e
      (vprintk_loop-Stops (length fmt + 1) uptime_ms fmt args _ (omega arith))
