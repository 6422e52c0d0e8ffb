-- ===== src/Multiboot.antt =====
-- newland/arch/x86/src/multiboot.c: the boot loader's modules as devices. `words` are the 32-bit
-- words of memory, `m` its bytes, and a fault is `none`.
use stardustos.Prelude.{
  Bool, List, Option, Ret, [], as_size, codes, einval, failed, get_or, if◌then◌else◌, is_failed,
  leb, ltb, min, none, some, suc, value, zero, ℕ, ◌%◌, ◌*◌, ◌+◌, ◌-◌, ◌==◌, ◌>>=◌, ◌^◌,
}
use stardustos.Dev.{Table, mkdev, register_device}
use stardustos.Fs.Files.{c_string}
use stardustos.Libc.Itoa.{itoa}
use stardustos.Libc.Memory.{poke}
use stardustos.Libc.Formats.{write_bytes}
use stardustos.Libc.Formats.Streams.{read_bytes}
use stardustos.Paging.Boot.{mod_after}
pub mod Names
pub mod Examples

-- DEVMAJ_MBMOD
abbrev pub devmaj_mbmod : ℕ
devmaj_mbmod = 3

-- `((node->name[6] - '0') * 10) + (node->name[5] - '0')` in a `uint8_t`, where 208 is -48.
unfoldable pub mod_index : List ℕ → ℕ
mod_index name = ((get_or name 6 0 + 208) * 10 + get_or name 5 0 + 208) % 2 ^ 8

-- `char name[8]` at the address 0; three digits run past it.
unfoldable pub mod_name : ℕ → Option (List ℕ)
unfolding itoa poke write_bytes read_bytes c_string
mod_name i = if ltb 99 i then none else do
  number ← itoa (write_bytes (λ a. 0) 0 (codes "mbmod")) 5 10 i
  let filled = if number.1 6 == 0 then poke number.1 6 b'0' else number.1
  c_string (read_bytes (poke filled 7 0) 0 8)

module _ (words m : ℕ → ℕ) (mods_addr mods_count : ℕ) where
  -- The result is a `size_t`, with the bytes for the buffer.
  unfoldable pub mb_read : List ℕ → ℕ → ℕ → ℕ × List ℕ
  unfolding mod_index mod_after read_bytes
  mb_read name offset size =
      let i = mod_index name in
      let mod_start = words (mod_after words mods_addr i) in
      let mod_end = words (mod_after words mods_addr i + 4) in
      let span = (mod_end + 2 ^ 32 - mod_start) % 2 ^ 32 in
      let n = if ltb span offset then 0 else min (span - offset) size in
      if ltb mods_count i
      then (as_size (failed einval), [])
      else if leb mod_end ((offset + size) % 2 ^ 32)
      then (as_size (failed einval), [])
      else (n, read_bytes m ((mod_start + offset) % 2 ^ 32) n)

  module _ {O : Type 0} (mbimod_opts : O) (alloc : ℕ → Bool) where
    -- The loop from module `i`, whose descriptor is at `p`, with `n` rounds left.
    unfoldable pub modules_from : Table O → ℕ → ℕ → ℕ → Option (Ret × Table O)
    unfolding mod_name
    modules_from t p i zero = some (value 0, t)
    modules_from t p i (suc n) = do
      name ← mod_name i
      let size = (words (p + 4) + 2 ^ 32 - words p) % 2 ^ 32
      r ← register_device t (alloc i) (mkdev devmaj_mbmod i) name mbimod_opts size
      if is_failed r.0 then some r else modules_from r.1 ((words (p + 4) + 1) % 2 ^ 32) (i + 1) n

    unfoldable pub mbi_modules_init : Table O → Option (Ret × Table O)
    unfolding modules_from
    mbi_modules_init t = modules_from t mods_addr 0 mods_count
