-- ===== src/Libc/Strings.antt =====
-- libraries/libc/src/string: the routines on C strings. A loop that looks for a NUL takes fuel, and
-- `none` is the end of the fuel; a string may begin at every address.
use stardustos.Prelude.{
  Option, if◌then◌else◌, none, not, some, suc, zero, ℕ, ◌%◌, ◌&&◌, ◌+◌, ◌-◌, ◌==◌, ◌^◌, ◌||◌,
}
use stardustos.Libc.Memory.{poke}
pub mod Reads
pub mod Writes

unfoldable pub len_from : (ℕ → ℕ) → ℕ → ℕ → ℕ → Option ℕ
len_from m str len zero = none
len_from m str len (suc fuel) =
    let rest = len_from m (str + 1) (len + 1) fuel in if m str == 0 then some len else rest

unfoldable pub strlen : (ℕ → ℕ) → ℕ → ℕ → Option ℕ
strlen m fuel str = len_from m str 0 fuel

-- The difference of two bytes, as an `int`.
abbrev pub byte_diff : ℕ → ℕ → ℕ
byte_diff a b = (a + 2 ^ 32 - b) % 2 ^ 32

unfoldable pub strcmp : (ℕ → ℕ) → ℕ → ℕ → ℕ → Option ℕ
strcmp m zero s1 s2 = none
strcmp m (suc fuel) s1 s2 =
    let rest = strcmp m fuel (s1 + 1) (s2 + 1) in
    if not (m s1 == 0) && m s1 == m s2 then rest else some (byte_diff (m s1) (m s2))

-- The loop with `n` left, after the test for 0.
unfoldable pub ncmp_from : (ℕ → ℕ) → ℕ → ℕ → ℕ → ℕ
ncmp_from m s1 s2 zero = byte_diff (m s1) (m s2)
ncmp_from m s1 s2 (suc n) =
    let rest = ncmp_from m (s1 + 1) (s2 + 1) n in
    if m s1 == m s2 && not (n == 0 || m s1 == 0) then rest else byte_diff (m s1) (m s2)

unfoldable pub strncmp : (ℕ → ℕ) → ℕ → ℕ → ℕ → ℕ
strncmp m s1 s2 n = if n == 0 then 0 else ncmp_from m s1 s2 n

unfoldable pub strcpy : (ℕ → ℕ) → ℕ → ℕ → ℕ → Option (ℕ → ℕ)
strcpy m zero dst src = none
strcpy m (suc fuel) dst src =
    let m' = poke m dst (m src) in
    let rest = strcpy m' fuel (dst + 1) (src + 1) in if m src == 0 then some m' else rest

-- `while (count-- > 0) *ds++ = '\0';`
unfoldable pub pad : (ℕ → ℕ) → ℕ → ℕ → ℕ → ℕ
pad m ds zero = m
pad m ds (suc count) = pad (poke m ds 0) (ds + 1) count

unfoldable pub strncpy : (ℕ → ℕ) → ℕ → ℕ → ℕ → ℕ → ℕ
strncpy m dst src zero = m
strncpy m dst src (suc count) =
    let m' = poke m dst (m src) in
    let padded = pad m' (dst + 1) count in
    let rest = strncpy m' (dst + 1) (src + 1) count in if m src == 0 then padded else rest
