-- ===== src/Paging.antt =====
-- newland/arch/x86/src/mem.c, the virtual half: page directories and tables, which the kernel reads
-- and writes as 32-bit words at their addresses, and the allocators over them. A page table is at
-- the address that its frame gives; the TLB, and the bytes that `memset` clears outside of words,
-- are left out.
use stardustos.Prelude.{
  Bool, Option, false, if◌then◌else◌, leb, ltb, none, not, some, suc, true, zero, ℕ, ◌%◌, ◌&&◌, ◌*◌,
  ◌+◌, ◌-◌, ◌/◌, ◌==◌, ◌>>=◌, ◌^◌, ◌||◌,
}
use stardustos.Phys.{
  Phys, page_addr, page_size, phys_alloc, phys_isused, phys_setfree, phys_setused, update,
}
pub mod Entries
pub mod Boot
pub mod Examples

-- The page map of the physical half, and the word at each address.
pub record Machine : Type 0 where
  pub phys : Phys
  pub words : ℕ → ℕ

-- The bit fields of `page_dir_entry_t` and `page_t`.
unfoldable pub present : ℕ → Bool
present e = not (e % 2 == 0)

unfoldable pub frame : ℕ → ℕ
frame e = e / page_size

-- `present = 1; write = iswrite; user = isuser; frame = …`; the other bits stay.
unfoldable pub set_entry : ℕ → ℕ → ℕ → ℕ → ℕ
set_entry e iswrite isuser f =
    f % 2 ^ 20 * page_size + e / 8 % 2 ^ 9 * 8 + isuser % 2 * 4 + iswrite % 2 * 2 + 1

-- PD_INDEX and PT_INDEX
unfoldable pub pd_index : ℕ → ℕ
pd_index vaddr = vaddr / 2 ^ 22

unfoldable pub pt_index : ℕ → ℕ
pt_index vaddr = vaddr / 2 ^ 12 % 2 ^ 10

-- `&dir->entries[PD_INDEX(vaddr)]`
unfoldable pub pde_addr : ℕ → ℕ → ℕ
unfolding pd_index
pde_addr dir vaddr = dir + 4 * pd_index vaddr

-- `&pt->entries[PT_INDEX(vaddr)]`
unfoldable pub pte_addr : ℕ → ℕ → ℕ
unfolding pt_index
pte_addr pt vaddr = pt + 4 * pt_index vaddr

abbrev pub table_of : (ℕ → ℕ) → ℕ → ℕ → ℕ
table_of words dir vaddr = frame (words (pde_addr dir vaddr)) * page_size % 2 ^ 32

unfoldable pub page_ispresent : Machine → ℕ → ℕ → Bool
page_ispresent s dir vaddr =
    if present (s.words (pde_addr dir vaddr))
    then present (s.words (pte_addr (table_of s.words dir vaddr) vaddr))
    else false

unfoldable pub ispresent_from : Machine → ℕ → ℕ → ℕ → ℕ → Bool
ispresent_from s dir vaddr i zero = true
ispresent_from s dir vaddr i (suc n) =
    let rest = ispresent_from s dir vaddr (i + 1) n in
    if page_ispresent s dir (page_addr vaddr i) then rest else false

unfoldable pub virt_ispresent : Machine → ℕ → ℕ → ℕ → Bool
virt_ispresent s dir vaddr count = ispresent_from s dir vaddr 0 count

unfoldable pub virt2phys : Machine → ℕ → ℕ → ℕ
virt2phys s dir vaddr =
    (frame (s.words (pte_addr (table_of s.words dir vaddr) vaddr)) * page_size + vaddr % page_size)
    % 2 ^ 32

-- A word written.
unfoldable pub store_word : Machine → ℕ → ℕ → Machine
store_word s a v = record s { words = update s.words a v }

-- The page's own entry, in the table at `pt`.
unfoldable pub set_page : Machine → ℕ → ℕ → ℕ → ℕ → ℕ → Machine
set_page s pt vaddr paddr iswrite isuser =
    let a = pte_addr pt vaddr in
    store_word s a (set_entry (s.words a) iswrite isuser (paddr / page_size))

-- `memset` of whole pages to 0.
unfoldable pub clear_pages : Machine → ℕ → ℕ → Machine
clear_pages s start count = record s {
  words = λ a. if leb start a && ltb a (start + count * page_size) then 0 else s.words a;
}

abbrev pub flag : ℕ → Bool
flag isuser = not (isuser == 0)

-- `virt_map` and `mem_allocident` call each other: a page directory that lacks a table gets one from
-- `mem_allocident`, which maps it. Every call and every round of a loop takes fuel, and `none` is
-- the end of the fuel. `n` rounds are left of a loop at round `i`.
unfoldable mutual
  pub map_from : ℕ → Machine → ℕ → ℕ → ℕ → ℕ → ℕ → ℕ → ℕ → Option Machine
  map_from zero s dir vaddr paddr i n iswrite isuser = none
  map_from (suc fuel) s dir vaddr paddr i zero iswrite isuser = some s
  map_from (suc fuel) s dir vaddr paddr i (suc n) iswrite isuser =
      let va = page_addr vaddr i in
      let pa = page_addr paddr i in
      elim (present (s.words (pde_addr dir va))) [
        | true ↦
            map_from fuel (set_page s (table_of s.words dir va) va pa iswrite isuser) dir vaddr
              paddr (i + 1) n iswrite isuser
        | false ↦ mem_allocident fuel s dir 1 iswrite 0 >>= λ got.
            map_from fuel
              (set_page
                (store_word got.1 (pde_addr dir va) (
                  set_entry (got.1.words (pde_addr dir va)) iswrite isuser
                    (pde_addr dir va / page_size)))
                got.0 va pa iswrite isuser)
              dir vaddr paddr (i + 1) n iswrite isuser
      ]

  -- The loop of `mem_allocident`, with the run that it has found so far.
  pub ident_from : ℕ → Machine → ℕ → ℕ → ℕ → ℕ → ℕ → ℕ → ℕ → ℕ → Option (ℕ × Machine)
  ident_from zero s dir count curr_size startaddr i n iswrite isuser = none
  ident_from (suc fuel) s dir count curr_size startaddr i zero iswrite isuser = some (0, s)
  ident_from (suc fuel) s dir count curr_size startaddr i (suc n) iswrite isuser =
      let addr = page_addr 0 i in
      elim (page_ispresent s dir addr || phys_isused s.phys addr 1) [
        | true ↦ ident_from fuel s dir count 0 startaddr (i + 1) n iswrite isuser
        | false ↦
            let start = if curr_size == 0 then addr else startaddr in
            elim (curr_size + 1 == count) [
              | true ↦
                  map_from fuel (record s { phys = phys_setused s.phys start count }) dir start
                    start 0 count iswrite isuser
                  >>= λ s'. some (start, clear_pages s' start count)
              | false ↦ ident_from fuel s dir count (curr_size + 1) start (i + 1) n iswrite isuser
            ]
      ]

  pub mem_allocident : ℕ → Machine → ℕ → ℕ → ℕ → ℕ → Option (ℕ × Machine)
  mem_allocident zero s dir count iswrite isuser = none
  mem_allocident (suc fuel) s dir zero iswrite isuser = some (0, s)
  mem_allocident (suc fuel) s dir (suc count) iswrite isuser =
      let from = if flag isuser then 256 else 0 in
      let until = if flag isuser then 2 ^ 20 else 2 ^ 18 in
      ident_from fuel s dir (suc count) 0 0 from (until - from) iswrite isuser

unfoldable pub virt_map : ℕ → Machine → ℕ → ℕ → ℕ → ℕ → ℕ → ℕ → Option Machine
virt_map fuel s dir vaddr paddr count iswrite isuser =
    map_from fuel s dir vaddr paddr 0 count iswrite isuser

unfoldable pub unmap_page : Machine → ℕ → ℕ → Machine
unmap_page s dir va =
    let a = pte_addr (table_of s.words dir va) va in
    if present (s.words a) then store_word s a 0 else s

unfoldable pub unmap_from : Machine → ℕ → ℕ → ℕ → ℕ → Machine
unmap_from s dir vaddr i zero = s
unmap_from s dir vaddr i (suc n) =
    unmap_from (unmap_page s dir (page_addr vaddr i)) dir vaddr (i + 1) n

unfoldable pub virt_unmap : Machine → ℕ → ℕ → ℕ → Machine
virt_unmap s dir vaddr count = unmap_from s dir vaddr 0 count

-- The loop of `virt_alloc`: the start of the first run that is long enough.
unfoldable pub hole_from : Machine → ℕ → ℕ → ℕ → ℕ → ℕ → ℕ → Option ℕ
hole_from s dir count curr_size startaddr i zero = none
hole_from s dir count curr_size startaddr i (suc n) =
    let vaddr = page_addr 0 i in
    let start = if curr_size == 0 then vaddr else startaddr in
    let broken = hole_from s dir count 0 startaddr (i + 1) n in
    let longer = hole_from s dir count (curr_size + 1) start (i + 1) n in
    if page_ispresent s dir vaddr
    then broken
    else if curr_size + 1 == count
    then some start
    else longer

unfoldable pub virt_alloc : ℕ → Machine → ℕ → ℕ → ℕ → ℕ → ℕ → Option (ℕ × Machine)
virt_alloc fuel s dir paddr count iswrite isuser =
    let from = if flag isuser then 2 ^ 18 else 0 in
    let until = if flag isuser then 2 ^ 20 else 2 ^ 18 in
    if count == 0 then some (0, s) else elim (hole_from s dir count 0 0 from (until - from)) [
      | none ↦ some (0, s)
      | some start ↦ virt_map fuel s dir start paddr count iswrite isuser >>= λ s'. some (start, s')
    ]

unfoldable pub mem_alloc : ℕ → Machine → ℕ → ℕ → ℕ → ℕ → Option (ℕ × Machine)
mem_alloc fuel s dir count iswrite isuser =
    if count == 0
    then some (0, s)
    else let (paddr, phys') = phys_alloc s.phys count in
      if paddr == 0
      then some (0, record s { phys = phys' })
      else (virt_alloc fuel (record s { phys = phys' }) dir paddr count iswrite isuser >>= λ got.
          some (got.0, clear_pages got.1 got.0 count))

unfoldable pub mem_free : Machine → ℕ → ℕ → ℕ → Machine
mem_free s dir addr count =
    if virt_ispresent s dir addr count
    then virt_unmap (record s { phys = phys_setfree s.phys (virt2phys s dir addr) count }) dir addr
        count
    else s

unfoldable pub mem_identmap : ℕ → Machine → ℕ → ℕ → ℕ → Option Machine
mem_identmap fuel s dir addr count =
    virt_map fuel (record s { phys = phys_setused s.phys addr count }) dir addr addr count 1 0

unfoldable pub memmap_from : ℕ → Machine → ℕ → ℕ → ℕ → ℕ → ℕ → ℕ → Option Machine
memmap_from fuel s pgdir addr i zero iswrite isuser = some s
memmap_from fuel s pgdir addr i (suc n) iswrite isuser =
    let vaddr = page_addr addr i in
    let (paddr, phys') = phys_alloc s.phys 1 in
    elim (virt_ispresent s pgdir vaddr 1) [
      | true ↦ memmap_from fuel s pgdir addr (i + 1) n iswrite isuser
      | false ↦
          virt_map fuel (record s { phys = phys' }) pgdir vaddr paddr 1 iswrite isuser >>= λ s'.
          memmap_from fuel s' pgdir addr (i + 1) n iswrite isuser
    ]

unfoldable pub mem_map : ℕ → Machine → ℕ → ℕ → ℕ → ℕ → ℕ → Option Machine
mem_map fuel s pgdir addr count iswrite isuser =
    memmap_from fuel s pgdir addr 0 count iswrite isuser
