-- ===== src/Paging/Examples.antt =====
-- Paging of newland/arch/x86/src/mem.c with a directory at 4096 and one table at 8192.
use stardustos.Prelude.{
  ap, arith, false, if◌then◌else◌, inl, inr, is_some, refl, some, subst, sym, true, ℕ, ◌%◌, ◌*◌,
  ◌+◌, ◌<◌, ◌==◌, ◌^◌, ◌≡◌, ◌⊎◌,
}
use stardustos.Phys.{
  Phys, isused_from, page_size, phys_isused, phys_setused, physical_is_used, test_bit,
}
use stardustos.Paging.Boot.{load_entry, load_from, map_len, map_type}
use stardustos.Paging.Boot.Reserved.{
  IsEntry, first_entry, load_entry_misses, load_from_ends, next_entry,
}
use stardustos.Paging.{
  Machine, clear_pages, frame, map_from, mem_allocident, page_ispresent, pd_index, pde_addr,
  present, pt_index, pte_addr, set_page, virt2phys, virt_map,
}
use stardustos.Paging.Entries.{virt2phys-virt_map}

abbrev machine : Machine
machine = record {
  phys = record { mem = λ i. 0; used_mem = 0; total_mem = 65536 };
  words = λ a. if a == 4096 then 8192 + 3 else 0;
}

virt2phys-virt_map_example :
    (s' : Machine) × (virt_map 2 machine 4096 20480 40960 1 1 0 ≡ some s')
    × (page_ispresent s' 4096 20480 ≡ true)
    × (virt2phys s' 4096 20480 ≡ 40960)
unfolding present pde_addr pte_addr pd_index pt_index frame
virt2phys-virt_map_example =
    virt2phys-virt_map machine 4096 20480 40960 1 0 refl (omega arith) 2 (omega arith) (omega arith)
      (omega arith) refl

-- The address 2 ^ 30 has no table yet, and page 3 is the first free one.
abbrev three_used : Machine
three_used = record machine {
  phys = record { mem = λ i. if i == 0 then 7 else 0; used_mem = 12288; total_mem = 65536 };
}

abbrev got_table : Machine
got_table =
    clear_pages
      (set_page (record three_used { phys = phys_setused three_used.phys 12288 1 }) 8192 12288 12288
        1 0)
      12288 1

table_allocated : mem_allocident 10 three_used 4096 1 1 0 ≡ some (12288, got_table)
unfolding map_from page_ispresent present pde_addr pte_addr pd_index pt_index frame phys_isused
    isused_from physical_is_used test_bit
table_allocated = refl

-- A map of one entry at the address 1000: 64 KiB reserved from 960 KiB on.
abbrev map_words : ℕ → ℕ
map_words a =
    if a == 1000
    then 20
    else if a == 1004
    then 983040
    else if a == 1012
    then 65536
    else if a == 1020
    then 2
    else 0

abbrev fresh_map : Phys
fresh_map = record { mem = λ i. 0; used_mem = 0; total_mem = 0 }

load_entry_misses_example : load_entry 3 map_words 1000 fresh_map ≡ some fresh_map
load_entry_misses_example = load_entry_misses 2 map_words 1000 fresh_map refl (omega arith)

map_entries : (p : ℕ) → IsEntry map_words 1000 1024 p → (p ≡ 1000) ⊎ (p ≡ 1024)
map_entries _ first_entry = inl refl
map_entries _ (next_entry {p} e under) = elim (map_entries p e) [
  | inl at_first ↦ inr (ap (λ q. (q + map_words q + 4) % 2 ^ 32) at_first)
  | inr past ↦ absurd (omega (arith, past, under))
]

-- What holds of the one entry holds of all.
of_entries : (P : ℕ → Type 0) → P 1000 → (p : ℕ) → IsEntry map_words 1000 1024 p → p < 1024 → P p
of_entries P one p e under = elim (map_entries p e) [
  | inl at_first ↦ subst P (sym at_first) one
  | inr past ↦ absurd (omega (arith, past, under))
]

load_from_ends_example : is_some (load_from 18 25 map_words 1000 1024 fresh_map) ≡ true
load_from_ends_example =
    load_from_ends 17 25 map_words 1000 1024 fresh_map
      (of_entries (λ p. p + map_words p + 4 < 2 ^ 32) (omega arith))
      (of_entries
        (λ p. (map_type map_words p == 1) ≡ false → map_len map_words p + page_size < 2 ^ 64 + 1)
        (λ _. omega arith))
      (of_entries (λ p. (map_type map_words p == 1) ≡ false → map_len map_words p < 17 * page_size)
        (λ _. omega arith))
      (omega arith)
