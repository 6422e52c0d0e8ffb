-- ===== src/Libc/Numbers.antt =====
-- libraries/libc/src/stdlib/ultoa.c: numbers in a base up to 16. The loops take fuel, and `none` is
-- the end of the fuel or a division by zero.
use stardustos.Prelude.{
  Option, if◌then◌else◌, ltb, none, some, suc, zero, ℕ, ◌*◌, ◌+◌, ◌-◌, ◌/◌, ◌==◌, ◌>>=◌,
}
use stardustos.Libc.Memory.{poke}
pub mod Digits
pub mod Round

-- `while (tmp > 0) { tmp = tmp/base; count++; }`
unfoldable pub digit_count : ℕ → ℕ → ℕ → Option ℕ
digit_count zero tmp base = none
digit_count (suc fuel) tmp base =
    let rest = digit_count fuel (tmp / base) base in
    if tmp == 0 then some 0 else (rest >>= λ c. some (c + 1))

-- The character of a digit.
unfoldable pub digit_char : ℕ → ℕ
digit_char res = if ltb res 10 then 48 + res else 55 + res

-- Each round writes in front of `ptr`; a remainder of 16 or more is not written.
unfoldable pub digits_from : ℕ → (ℕ → ℕ) → ℕ → ℕ → ℕ → Option (ℕ × (ℕ → ℕ))
unfolding digit_char
digits_from zero m ptr number base = none
digits_from (suc fuel) m ptr number base =
    let t = number / base in
    let res = number - base * t in
    let ptr' = if ltb res 16 then ptr - 1 else ptr in
    let m' = if ltb res 16 then poke m (ptr - 1) (digit_char res) else m in
    let rest = digits_from fuel m' ptr' t base in if t == 0 then some (ptr', m') else rest

unfoldable pub ultoa : ℕ → (ℕ → ℕ) → ℕ → ℕ → ℕ → Option (ℕ × (ℕ → ℕ))
ultoa fuel m number ptr base =
    if ptr == 0
    then some (0, m)
    else if base == 0
    then none
    else (digit_count fuel number base >>= λ c.
        let count = if number == 0 then 1 else c in
        digits_from fuel (poke m (ptr + count) 0) (ptr + count) number base)
