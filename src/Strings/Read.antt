-- ===== src/Strings/Read.antt =====
-- src/kernel/utils/string.c: the functions that only read. `char` is an unsigned byte, as on
-- AArch64. The loops that run to the end of a string take fuel and give `none` when it runs out.
use kernelite.Base.{ℕ, zero, suc, ◌+◌, ◌-◌, ◌*◌, ◌&&◌, ◌||◌, Option, none, some}
use kernelite.Base.{leb, ◌==◌, ◌!=◌, if◌then◌else◌, u8, u64, Mem}

-- An `int`.
pub data ℤ : Type 0 where
  pos : ℕ → ℤ
  negsuc : ℕ → ℤ

-- The difference of two bytes.
unfoldable pub byte_diff : ℕ → ℕ → ℤ
byte_diff a b = if leb b a then pos (a - b) else negsuc (b - a - 1)

unfoldable pub memcmp : ℕ → ℕ → ℕ → Mem → ℤ
memcmp str1 str2 zero m = pos 0
memcmp str1 str2 (suc size) m =
    let rest = memcmp (str1 + 1) (str2 + 1) size m in
    if m str1 != m str2 then byte_diff (m str1) (m str2) else rest

-- 0 is NULL.
unfoldable pub memchr : ℕ → ℕ → ℕ → Mem → ℕ
memchr str chr zero m = 0
memchr str chr (suc size) m =
    let rest = memchr (str + 1) chr size m in if m str == u8 chr then str else rest

unfoldable pub strchr : ℕ → ℕ → ℕ → Mem → Option ℕ
strchr zero str chr m = none
strchr (suc fuel) str chr m =
    let rest = strchr fuel (str + 1) chr m in
    if m str == u8 chr then some str else if m str == 0 then some 0 else rest

-- The loop of strrchr, with `last`.
unfoldable pub last_chr : ℕ → ℕ → ℕ → ℕ → Mem → Option ℕ
last_chr zero str chr last m = none
last_chr (suc fuel) str chr last m =
    let last' = if m str == u8 chr then str else last in
    let rest = last_chr fuel (str + 1) chr last' m in if m str == 0 then some last' else rest

unfoldable pub strrchr : ℕ → ℕ → ℕ → Mem → Option ℕ
unfolding last_chr
strrchr fuel str chr m = last_chr fuel str chr 0 m

-- `while (str[len]) len++`
unfoldable pub strlen_from : ℕ → ℕ → ℕ → Mem → Option ℕ
strlen_from zero str len m = none
strlen_from (suc fuel) str len m =
    let rest = strlen_from fuel str (len + 1) m in if m (str + len) == 0 then some len else rest

unfoldable pub strlen : ℕ → ℕ → Mem → Option ℕ
unfolding strlen_from
strlen fuel str m = strlen_from fuel str 0 m

-- The loop of strnlen, with the rounds left.
unfoldable pub strnlen_from : ℕ → ℕ → ℕ → Mem → ℕ
strnlen_from zero str len m = len
strnlen_from (suc left) str len m =
    let rest = strnlen_from left str (len + 1) m in if m (str + len) == 0 then len else rest

unfoldable pub strnlen : ℕ → ℕ → Mem → ℕ
unfolding strnlen_from
strnlen str maxlen m = strnlen_from maxlen str 0 m

unfoldable pub strcmp : ℕ → ℕ → ℕ → Mem → Option ℤ
unfolding byte_diff
strcmp zero lhs rhs m = none
strcmp (suc fuel) lhs rhs m =
    let rest = strcmp fuel (lhs + 1) (rhs + 1) m in
    if (m lhs != 0) && (m lhs == m rhs) then rest else some (byte_diff (m lhs) (m rhs))

-- The value of a digit of strtoul.
unfoldable pub digit : ℕ → Option ℕ
digit chr =
    if leb 48 chr && leb chr 57
    then some (chr - 48)
    else if leb 97 chr && leb chr 102
    then some (chr - 97 + 10)
    else if leb 65 chr && leb chr 70
    then some (chr - 65 + 10)
    else none

-- The loop of strtoul: the number, and where it ends.
unfoldable pub read_digits : ℕ → ℕ → ℕ → ℕ → Mem → Option (ℕ × ℕ)
unfolding digit
read_digits zero base nptr res m = none
read_digits (suc fuel) base nptr res m = elim (digit (m nptr)) [
  | none ↦ some (res, nptr)
  | some value ↦
      (let rest = read_digits fuel base (nptr + 1) (u64 (u64 (res * base) + value)) m in
        if leb base value then some (res, nptr) else rest)
]

-- Characters are 0x30 for '0', 0x78 for 'x' and 0x58 for 'X'. The base is not negative here.
unfoldable pub strtoul : ℕ → ℕ → ℕ → Mem → Option (ℕ × ℕ)
unfolding read_digits
strtoul fuel nptr base m =
    if (base == 0 || base == 16)
      && ((m nptr == 0x30) && (m (nptr + 1) == 0x78 || m (nptr + 1) == 0x58))
    then read_digits fuel 16 (nptr + 2) 0 m
    else read_digits fuel (if base == 0 then 10 else base) nptr 0 m
