-- ===== src/Paging/Boot.antt =====
-- newland/arch/x86/src/mem.c at start-up and for a process's page directory: the boot loader's
-- memory map (newland/arch/x86/include/newland/boot/multiboot.h), mem_init, mem_alloc_pgdir and
-- mem_free_pgdir. `krnl_pgdir`, `krnl_pgtbl` and `kernel_end` are the addresses that the linker
-- gives.
use stardustos.Prelude.{
  Option, if◌then◌else◌, ltb, max, none, some, suc, zero, ℕ, ◌%◌, ◌*◌, ◌+◌, ◌-◌, ◌/◌, ◌==◌, ◌>>=◌,
  ◌^◌,
}
use stardustos.Phys.{Phys, page_size, phys_setfree, physical_set_used}
use stardustos.Paging.{
  Machine, clear_pages, frame, mem_allocident, mem_free, mem_identmap, present, set_entry,
  store_word,
}
pub mod Reserved

-- The fields of `multiboot_info_t` that are read.
pub record MultibootInfo : Type 0 where
  pub mmap_addr : ℕ
  pub mmap_length : ℕ
  pub mods_addr : ℕ
  pub mods_count : ℕ

-- `multiboot_memory_map_t`, which is packed: two of the fields have 64 bits.
abbrev pub map_addr : (ℕ → ℕ) → ℕ → ℕ
map_addr words p = words (p + 4) + words (p + 8) * 2 ^ 32

abbrev pub map_len : (ℕ → ℕ) → ℕ → ℕ
map_len words p = words (p + 12) + words (p + 16) * 2 ^ 32

abbrev pub map_type : (ℕ → ℕ) → ℕ → ℕ
map_type words p = words (p + 20)

-- `for (addr = …; addr < mmap->len; addr += PAGE_SIZE)` with its 64-bit `addr`; `rounds` is its fuel.
unfoldable pub reserve_from : ℕ → (ℕ → ℕ) → ℕ → ℕ → Option (ℕ → ℕ)
reserve_from zero mem addr len = none
reserve_from (suc rounds) mem addr len =
    let rest =
      reserve_from rounds (physical_set_used mem (addr % 2 ^ 32)) ((addr + page_size) % 2 ^ 64)
        len in
    if ltb addr len then rest else some mem

-- One entry.
unfoldable pub load_entry : ℕ → (ℕ → ℕ) → ℕ → Phys → Option Phys
unfolding reserve_from
load_entry rounds words p s =
    if map_type words p == 1
    then some (record s { total_mem = (s.total_mem + map_len words p) % 2 ^ 32 })
    else (reserve_from rounds s.mem (map_addr words p) (map_len words p) >>= λ mem.
        some (record s { mem = mem }))

-- The entries from `mmap` up to `stop`; `none` is the end of the fuel.
unfoldable pub load_from : ℕ → ℕ → (ℕ → ℕ) → ℕ → ℕ → Phys → Option Phys
unfolding load_entry
load_from rounds zero words mmap stop s = none
load_from rounds (suc fuel) words mmap stop s =
    let rest = load_entry rounds words mmap s >>= λ s'.
    load_from rounds fuel words ((mmap + words mmap + 4) % 2 ^ 32) stop s' in
    if ltb mmap stop then rest else some s

-- `mod = mod->mod_end + 1` for each module.
unfoldable pub mod_after : (ℕ → ℕ) → ℕ → ℕ → ℕ
mod_after words p zero = p
mod_after words p (suc n) = mod_after words ((words (p + 4) + 1) % 2 ^ 32) n

-- PAGE_ALIGN: one page on, where `x` is aligned already.
unfoldable pub page_align : ℕ → ℕ
page_align x = (x + page_size - x % page_size) % 2 ^ 32

module _ (kernel_end krnl_pgdir krnl_pgtbl : ℕ) where
  unfoldable pub mem_loadmmap : ℕ → ℕ → MultibootInfo → Machine → Option Machine
  unfolding load_from mod_after page_align
  mem_loadmmap rounds fuel mbi s =
      let stop = (mbi.mmap_addr + mbi.mmap_length) % 2 ^ 32 in
      load_from rounds fuel s.words mbi.mmap_addr stop (record s.phys { total_mem = 0 }) >>= λ phys.
      some (record s {
        phys = record phys {
          used_mem = page_align (max kernel_end (mod_after s.words mbi.mods_addr mbi.mods_count));
        };
      })

  -- The entries of the kernel's tables, from entry `i` on, in the directory at `dir`.
  unfoldable pub kernel_entries : Machine → ℕ → ℕ → ℕ → Machine
  kernel_entries s dir i zero = s
  kernel_entries s dir i (suc n) =
      let a = dir + 4 * i in
      let table = (krnl_pgtbl + i * page_size) / page_size in
      kernel_entries (store_word s a (set_entry (s.words a) 1 0 table)) dir (i + 1) n

  unfoldable pub mem_init : ℕ → ℕ → MultibootInfo → Machine → Option Machine
  unfolding mem_loadmmap kernel_entries
  mem_init rounds fuel mbi s =
      let cleared = record s { phys = record s.phys { mem = λ i. 0 } } in
      mem_loadmmap rounds fuel mbi (kernel_entries cleared krnl_pgdir 0 256) >>= λ s'.
      mem_identmap fuel s' krnl_pgdir 0 (page_align s'.phys.used_mem / page_size + 1)

  unfoldable pub mem_alloc_pgdir : ℕ → Machine → Option (ℕ × Machine)
  unfolding kernel_entries
  mem_alloc_pgdir fuel s = mem_allocident fuel s krnl_pgdir 1 1 0 >>= λ got.
      if got.0 == 0
      then some (0, got.1)
      else some (got.0, kernel_entries (clear_pages got.1 got.0 1) got.0 0 256)

  -- The inner loop of mem_free_pgdir: it counts `i`, so that it looks at entry 0 of the table in
  -- every round.
  unfoldable pub free_first : Machine → ℕ → ℕ → Machine
  free_first s pt zero = s
  free_first s pt (suc n) =
      let page = frame (s.words pt) * page_size % 2 ^ 32 in
      free_first
        (if present (s.words pt) then record s { phys = phys_setfree s.phys page 1 } else s) pt n

  -- The outer loop with `n` rounds left; after a table the inner loop has used them all up.
  unfoldable pub free_tables : Machine → ℕ → ℕ → ℕ → Machine
  unfolding free_first
  free_tables s dir i zero = s
  free_tables s dir i (suc n) =
      let pde = s.words (dir + 4 * i) in
      let pt = frame pde * page_size % 2 ^ 32 in
      let rest = free_tables s dir (i + 1) n in
      if present pde then mem_free (free_first s pt (suc n)) krnl_pgdir pt 1 else rest

  unfoldable pub mem_free_pgdir : Machine → ℕ → Machine
  unfolding free_tables
  mem_free_pgdir s dir = mem_free (free_tables s dir 256 768) krnl_pgdir dir 1
