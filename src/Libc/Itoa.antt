-- ===== src/Libc/Itoa.antt =====
-- libraries/libc/src/string/itoa.c: a number in base 10 or 16. An `int` is its 32 bits, and
-- `none` is the end of the fuel, of which 33 rounds are enough.
use stardustos.Prelude.{
  Option, if◌then◌else◌, leb, ltb, none, some, suc, zero, ℕ, ◌%◌, ◌&&◌, ◌+◌, ◌-◌, ◌/◌, ◌==◌, ◌>>=◌,
  ◌^◌,
}
use stardustos.Libc.Memory.{poke}

-- `do { … *p++ = …; } while (ud /= divisor);`, with the place of the NUL.
unfoldable pub itoa_digits : ℕ → (ℕ → ℕ) → ℕ → ℕ → ℕ → Option (ℕ × (ℕ → ℕ))
unfolding poke
itoa_digits zero m p ud divisor = none
itoa_digits (suc fuel) m p ud divisor =
    let remainder = ud % divisor in
    let m' = poke m p (if ltb remainder 10 then remainder + b'0' else remainder + b'a' - 10) in
    let rest = itoa_digits fuel m' (p + 1) (ud / divisor) divisor in
    if ud / divisor == 0 then some (p + 1, m') else rest

-- The loop that reverses the digits, with `wrote`.
unfoldable pub swap_ends : ℕ → (ℕ → ℕ) → ℕ → ℕ → ℕ → Option (ℕ × (ℕ → ℕ))
unfolding poke
swap_ends zero m p1 p2 wrote = none
swap_ends (suc fuel) m p1 p2 wrote =
    let rest = swap_ends fuel (poke (poke m p1 (m p2)) p2 (m p1)) (p1 + 1) (p2 - 1) (wrote + 1) in
    if ltb p1 p2 then rest else some (wrote, m)

-- The digits from `buf` on, the NUL and the reversal.
unfoldable pub itoa_number : (ℕ → ℕ) → ℕ → ℕ → ℕ → ℕ → Option (ℕ × (ℕ → ℕ))
unfolding itoa_digits swap_ends poke
itoa_number m buf ud divisor wrote =
    itoa_digits 33 m buf ud divisor >>= λ d. swap_ends 33 (poke d.1 d.0 0) buf (d.0 - 1) wrote

unfoldable pub itoa : (ℕ → ℕ) → ℕ → ℕ → ℕ → Option (ℕ × (ℕ → ℕ))
unfolding itoa_number poke
itoa m buf base d =
    if base == b'd' && leb (2 ^ 31) d
    then itoa_number (poke m buf b'-') (buf + 1) (2 ^ 32 - d) 10 1
    else itoa_number m buf d (if base == b'x' then 16 else 10) 0
