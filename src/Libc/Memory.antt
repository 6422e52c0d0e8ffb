-- ===== src/Libc/Memory.antt =====
-- libraries/libc/src/string: memset, memcpy, memmove and memcmp. Memory is a byte to an address,
-- and no block runs past the end of the address space.
use stardustos.Prelude.{if◌then◌else◌, ltb, suc, zero, ℕ, ◌%◌, ◌+◌, ◌-◌, ◌==◌, ◌^◌}
pub mod Moves

-- One byte written.
unfoldable pub poke : (ℕ → ℕ) → ℕ → ℕ → ℕ → ℕ
poke m a v b = if a == b then v else m b

-- Round `i` and the `n` rounds that are left.
unfoldable pub set_up : (ℕ → ℕ) → ℕ → ℕ → ℕ → ℕ → ℕ → ℕ
set_up m ptr val i zero = m
set_up m ptr val i (suc n) = set_up (poke m (ptr + i) (val % 2 ^ 8)) ptr val (i + 1) n

unfoldable pub memset : (ℕ → ℕ) → ℕ → ℕ → ℕ → ℕ → ℕ
memset m ptr val size = set_up m ptr val 0 size

-- The loop from the first byte up.
unfoldable pub copy_up : (ℕ → ℕ) → ℕ → ℕ → ℕ → ℕ → ℕ → ℕ
copy_up m dst src i zero = m
copy_up m dst src i (suc n) = copy_up (poke m (dst + i) (m (src + i))) dst src (i + 1) n

unfoldable pub memcpy : (ℕ → ℕ) → ℕ → ℕ → ℕ → ℕ → ℕ
memcpy m dst src size = copy_up m dst src 0 size

-- The loop from the last byte down, with `i` bytes left.
unfoldable pub copy_down : (ℕ → ℕ) → ℕ → ℕ → ℕ → ℕ → ℕ
copy_down m dst src zero = m
copy_down m dst src (suc i) = copy_down (poke m (dst + i) (m (src + i))) dst src i

unfoldable pub memmove : (ℕ → ℕ) → ℕ → ℕ → ℕ → ℕ → ℕ
memmove m dst src size = if ltb dst src then copy_up m dst src 0 size else copy_down m dst src size

-- The result is the difference, an `int` of 32 bits.
unfoldable pub memcmp : (ℕ → ℕ) → ℕ → ℕ → ℕ → ℕ
memcmp m p1 p2 zero = 0
memcmp m p1 p2 (suc n) =
    let rest = memcmp m (p1 + 1) (p2 + 1) n in
    if m p1 == m p2 then rest else (m p1 + 2 ^ 32 - m p2) % 2 ^ 32
