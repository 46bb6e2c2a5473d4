-- ===== src/Strings/Tests.antt =====
-- The routines on a few bytes.
use risky.Base.{ℕ, ◌+◌, ◌≡◌, refl, ◌==◌, arith, Option, some, if◌then◌else◌, u8}
use risky.Strings.{Memory, Sign, memmove, memcmp, strcmp, strlen, strnlen, strchr}
use risky.Strings.Copy.{copied, memmove_lem}
use risky.Strings.Compare.{Compared, IsString, memcmp-Compared, strcmp-Compared}
use risky.Strings.Scan.{shorter, Found, strlen_lem, strchr-Found}

-- "ab" at 100 and "ac" at 200.
abbrev bytes : Memory
bytes a =
    if a == 100
    then 97
    else if a == 101
    then 98
    else if a == 200
    then 97
    else if a == 201
    then 99
    else 0

bytes-IsString : IsString 100 2 bytes
bytes-IsString = record { ends = refl; inside = λ i lt. ground arith }

memcmp-Compared_example : Compared 2 100 200 bytes (memcmp 100 200 2 bytes)
memcmp-Compared_example = memcmp-Compared 100 200 bytes 2

memmove_lem_example :
    ((memmove 101 100 3 bytes).0 ≡ 101)
    × ((memmove 101 100 3 bytes).1 102 ≡ copied 101 100 3 bytes 102)
memmove_lem_example = memmove_lem 101 100 102 3 bytes

strcmp-Compared_example :
    (r : Sign) × (strcmp 10 100 200 bytes ≡ some r) × Compared (2 + 1) 100 200 bytes r
strcmp-Compared_example = strcmp-Compared 100 200 bytes 10 2 bytes-IsString (omega arith)

strlen_lem_example : (strlen 10 100 bytes ≡ some 2) × (strnlen 100 1 bytes ≡ shorter 2 1)
strlen_lem_example = strlen_lem 100 2 bytes bytes-IsString 10 1 (omega arith)

strchr-Found_example :
    (r : Option ℕ) × (strchr 10 100 98 bytes ≡ some r) × Found 100 2 (u8 98) bytes r
strchr-Found_example = strchr-Found 100 2 98 10 bytes bytes-IsString (omega arith)
