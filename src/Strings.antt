-- ===== src/Strings.antt =====
-- kernel/src/lib/string.c: the memory and string routines. Memory is a function from addresses to
-- bytes, and no object reaches past the end of the address space. A loop that ends at a NUL only
-- has a bound on its rounds; `none` is a bound that was too small.
pub mod Copy
pub mod Compare
pub mod Scan
pub mod Tests
use risky.Base.{
  ℕ, zero, suc, ◌+◌, Bool, not, ◌&&◌, ◌||◌, Option, none, some, ltb, ◌==◌, if◌then◌else◌, u8,
  update,
}

abbrev pub Memory : Type 0
Memory = ℕ → ℕ

unfoldable pub memcpy_loop : (count i dest src : ℕ) → Memory → Memory
memcpy_loop zero i dest src m = m
memcpy_loop (suc count) i dest src m =
    memcpy_loop count (i + 1) dest src (update m (dest + i) (m (src + i)))

-- The result is that of the function and the memory.
unfoldable pub memcpy : (dest src n : ℕ) → Memory → ℕ × Memory
memcpy dest src n m = (dest, memcpy_loop n 0 dest src m)

unfoldable pub memset_loop : (count i s c : ℕ) → Memory → Memory
memset_loop zero i s c m = m
memset_loop (suc count) i s c m = memset_loop count (i + 1) s c (update m (s + i) (u8 c))

unfoldable pub memset : (s c n : ℕ) → Memory → ℕ × Memory
memset s c n m = (s, memset_loop n 0 s c m)

-- `for (size_t i = n; i > 0; i--)`, with `i` the number of rounds left.
unfoldable pub memmove_backward : (i dest src : ℕ) → Memory → Memory
memmove_backward zero dest src m = m
memmove_backward (suc i) dest src m =
    memmove_backward i dest src (update m (dest + i) (m (src + i)))

-- The forward loop is that of `memcpy`.
unfoldable pub memmove : (dest src n : ℕ) → Memory → ℕ × Memory
memmove dest src n m =
    if ltb dest src
    then (dest, memcpy_loop n 0 dest src m)
    else if ltb src dest
    then (dest, memmove_backward n dest src m)
    else (dest, m)

-- The results -1, 0 and 1.
pub data Sign : Type 0 where
  negative equal positive : Sign

unfoldable pub memcmp_loop : (count i s1 s2 : ℕ) → Memory → Sign
memcmp_loop zero i s1 s2 m = equal
memcmp_loop (suc count) i s1 s2 m =
    let rest = memcmp_loop count (i + 1) s1 s2 m in
    if not (m (s1 + i) == m (s2 + i))
    then (if ltb (m (s1 + i)) (m (s2 + i)) then negative else positive)
    else rest

unfoldable pub memcmp : (s1 s2 n : ℕ) → Memory → Sign
memcmp s1 s2 n m = memcmp_loop n 0 s1 s2 m

unfoldable pub strlen_loop : (rounds len s : ℕ) → Memory → Option ℕ
strlen_loop zero len s m = none
strlen_loop (suc rounds) len s m =
    let rest = strlen_loop rounds (len + 1) s m in if not (m (s + len) == 0) then rest else some len

unfoldable pub strlen : (rounds s : ℕ) → Memory → Option ℕ
strlen rounds s m = strlen_loop rounds 0 s m

-- `count` is `maxlen - len`.
unfoldable pub strnlen_loop : (count len s : ℕ) → Memory → ℕ
strnlen_loop zero len s m = len
strnlen_loop (suc count) len s m =
    let rest = strnlen_loop count (len + 1) s m in if not (m (s + len) == 0) then rest else len

unfoldable pub strnlen : (s maxlen : ℕ) → Memory → ℕ
strnlen s maxlen m = strnlen_loop maxlen 0 s m

unfoldable pub strcmp_loop : (rounds i s1 s2 : ℕ) → Memory → Option Sign
strcmp_loop zero i s1 s2 m = none
strcmp_loop (suc rounds) i s1 s2 m =
    let rest = strcmp_loop rounds (i + 1) s1 s2 m in
    if not (m (s1 + i) == 0) && not (m (s2 + i) == 0)
    then (if not (m (s1 + i) == m (s2 + i))
        then (if ltb (m (s1 + i)) (m (s2 + i)) then some negative else some positive)
        else rest)
    else if m (s1 + i) == m (s2 + i)
    then some equal
    else if m (s1 + i) == 0
    then some negative
    else some positive

unfoldable pub strcmp : (rounds s1 s2 : ℕ) → Memory → Option Sign
strcmp rounds s1 s2 m = strcmp_loop rounds 0 s1 s2 m

-- The inner option is the pointer that is returned, `none` for `NULL`.
unfoldable pub strchr_loop : (rounds s needle : ℕ) → Memory → Option (Option ℕ)
strchr_loop zero s needle m = none
strchr_loop (suc rounds) s needle m =
    let rest = strchr_loop rounds (s + 1) needle m in
    if m s == needle then some (some s) else if m s == 0 then some none else rest

unfoldable pub strchr : (rounds s c : ℕ) → Memory → Option (Option ℕ)
strchr rounds s c m = strchr_loop rounds s (u8 c) m
