-- ===== src/Phys.antt =====
-- newland/arch/x86/src/mem.c, the physical half: a bit for each 4 KiB page of the 32-bit address
-- space, and the allocator over it.
use stardustos.Prelude.{
  Bool, as_size, bit_and, bit_or, enomem, failed, false, if◌then◌else◌, not, suc, true, zero, ℕ,
  ◌%◌, ◌*◌, ◌+◌, ◌-◌, ◌/◌, ◌==◌, ◌^◌,
}
pub mod Bits
pub mod Pages
pub mod Ranges
pub mod Alloc
pub mod Examples

abbrev pub page_size : ℕ
page_size = 4096

-- `unsigned char mem[1024 * 1024 / 8]`, `used_mem` and `total_mem`
pub record Phys : Type 0 where
  pub mem : ℕ → ℕ
  pub used_mem : ℕ
  pub total_mem : ℕ

abbrev pub update : (ℕ → ℕ) → ℕ → ℕ → ℕ → ℕ
update m i v j = if i == j then v else m j

-- `byte & (1 << k)`, `byte | (1 << k)` and `byte & ~(1 << k)`
unfoldable pub test_bit : ℕ → ℕ → Bool
test_bit byte k = not (bit_and byte (2 ^ k) == 0)

unfoldable pub set_bit : ℕ → ℕ → ℕ
set_bit byte k = bit_or byte (2 ^ k)

unfoldable pub clear_bit : ℕ → ℕ → ℕ
clear_bit byte k = bit_and byte (255 - 2 ^ k)

-- PHYSICAL_IS_USED, PHYSICAL_SET_USED and PHYSICAL_SET_FREE
unfoldable pub physical_is_used : (ℕ → ℕ) → ℕ → Bool
physical_is_used m addr = test_bit (m (addr / page_size / 8)) (addr / page_size % 8)

unfoldable pub physical_set_used : (ℕ → ℕ) → ℕ → ℕ → ℕ
physical_set_used m addr =
    let i = addr / page_size / 8 in update m i (set_bit (m i) (addr / page_size % 8))

unfoldable pub physical_set_free : (ℕ → ℕ) → ℕ → ℕ → ℕ
physical_set_free m addr =
    let i = addr / page_size / 8 in update m i (clear_bit (m i) (addr / page_size % 8))

-- `addr + (i * PAGE_SIZE)` in an `unsigned int`
abbrev pub page_addr : ℕ → ℕ → ℕ
page_addr addr i = (addr + i * page_size) % 2 ^ 32

-- The loops run over the rounds that are left, from round `i`.
unfoldable pub isused_from : Phys → ℕ → ℕ → ℕ → Bool
isused_from s addr i zero = false
isused_from s addr i (suc n) =
    let rest = isused_from s addr (i + 1) n in
    if physical_is_used s.mem (page_addr addr i) then true else rest

unfoldable pub phys_isused : Phys → ℕ → ℕ → Bool
phys_isused s addr count = isused_from s addr 0 count

unfoldable pub use_page : Phys → ℕ → Phys
use_page s addr = if physical_is_used s.mem addr then s else record s {
  used_mem = (s.used_mem + page_size) % 2 ^ 32;
  mem = physical_set_used s.mem addr;
}

unfoldable pub setused_from : Phys → ℕ → ℕ → ℕ → Phys
setused_from s addr i zero = s
setused_from s addr i (suc n) = setused_from (use_page s (page_addr addr i)) addr (i + 1) n

unfoldable pub phys_setused : Phys → ℕ → ℕ → Phys
phys_setused s addr count = setused_from s addr 0 count

unfoldable pub free_page : Phys → ℕ → Phys
free_page s addr =
    if physical_is_used s.mem addr
    then record s {
      used_mem = (s.used_mem + 2 ^ 32 - page_size) % 2 ^ 32;
      mem = physical_set_free s.mem addr;
    }
    else s

unfoldable pub setfree_from : Phys → ℕ → ℕ → ℕ → Phys
setfree_from s addr i zero = s
setfree_from s addr i (suc n) = setfree_from (free_page s (page_addr addr i)) addr (i + 1) n

unfoldable pub phys_setfree : Phys → ℕ → ℕ → Phys
phys_setfree s addr count = setfree_from s addr 0 count

-- `unsigned int`, so that -NEWLAND_ENOMEM is the largest address
unfoldable pub alloc_from : Phys → ℕ → ℕ → ℕ → ℕ × Phys
alloc_from s count i zero = (as_size (failed enomem), s)
alloc_from s count i (suc n) =
    let rest = alloc_from s count (i + 1) n in
    let addr = i * page_size % 2 ^ 32 in
    if phys_isused s addr count then rest else (addr, phys_setused s addr count)

unfoldable pub phys_alloc : Phys → ℕ → ℕ × Phys
phys_alloc s count = alloc_from s count 0 (s.total_mem / page_size)
