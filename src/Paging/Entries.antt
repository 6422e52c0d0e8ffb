-- ===== src/Paging/Entries.antt =====
-- What mapping and unmapping one page in newland/arch/x86/src/mem.c says of it.
use stardustos.Prelude.{
  ==_refl, Bool-cases, arith, false, inl, inr, refl, some, suc, true, zero, ℕ, ◌%◌, ◌*◌, ◌+◌, ◌/◌,
  ◌<◌, ◌^◌, ◌≡◌, ◌≢◌,
}
use stardustos.Paging.{
  Machine, frame, map_from, mem_allocident, page_ispresent, pde_addr, present, pte_addr, set_entry,
  set_page, store_word, table_of, unmap_from, unmap_page, virt2phys, virt_map, virt_unmap,
}
use stardustos.Phys.{page_addr, page_size}

pub set_entry-present : (e w u f : ℕ) → present (set_entry e w u f) ≡ true
unfolding present set_entry
set_entry-present e w u f = ground arith

pub frame-set_entry : (e w u f : ℕ) → f < 2 ^ 20 → frame (set_entry e w u f) ≡ f
unfolding frame set_entry
frame-set_entry e w u f small = omega arith

map_from-one :
    (fuel : ℕ) (s : Machine) (dir vaddr paddr w u : ℕ)
    → present (s.words (pde_addr dir (page_addr vaddr 0))) ≡ true
    → map_from (suc (suc fuel)) s dir vaddr paddr 0 1 w u
      ≡ some (
          set_page s
            (table_of s.words dir (page_addr vaddr 0))
            (page_addr vaddr 0)
            (page_addr paddr 0)
            w
            u)
unfolding map_from
map_from-one fuel s dir vaddr paddr w u there = rw (there, map_from) refl

page_addr-zero : (a : ℕ) → a < 2 ^ 32 → page_addr a 0 ≡ a
page_addr-zero a h = omega arith

module _ (s : Machine) (dir vaddr paddr w u : ℕ)
    (there : present (s.words (pde_addr dir vaddr)) ≡ true)
    (apart : pte_addr (table_of s.words dir vaddr) vaddr ≢ pde_addr dir vaddr) where
  abbrev mapped : Machine
  mapped = set_page s (table_of s.words dir vaddr) vaddr paddr w u

  -- The directory is as it was.
  mapped-pde : mapped.words (pde_addr dir vaddr) ≡ s.words (pde_addr dir vaddr)
  unfolding set_page store_word
  mapped-pde = ground (arith, apart)

  mapped-pte :
      mapped.words (pte_addr (table_of s.words dir vaddr) vaddr)
      ≡ set_entry (s.words (pte_addr (table_of s.words dir vaddr) vaddr)) w u (paddr / page_size)
  unfolding set_page store_word
  mapped-pte = rw (==_refl (pte_addr (table_of s.words dir vaddr) vaddr)) refl

  mapped-page_ispresent : page_ispresent mapped dir vaddr ≡ true
  unfolding page_ispresent
  mapped-page_ispresent =
      rw (mapped-pde, there, mapped-pte) (set_entry-present _ w u (paddr / page_size))

  mapped-virt2phys :
      paddr < 2 ^ 32
      → paddr % page_size ≡ 0
      → virt2phys mapped dir vaddr ≡ paddr + vaddr % page_size
  unfolding virt2phys
  mapped-virt2phys small aligned =
      let e = s.words (pte_addr (table_of s.words dir vaddr) vaddr) in
      rw (mapped-pde, mapped-pte, frame-set_entry e w u (paddr / page_size) (omega arith))
        (omega arith)

  -- Mapping a page whose table is there, with an entry that is not the directory's own, makes the
  -- page present, and its addresses go to the aligned physical page. Fuel for two rounds is enough.
  pub virt2phys-virt_map :
      (fuel : ℕ)
      → 1 < fuel
      → vaddr < 2 ^ 32
      → paddr < 2 ^ 32
      → paddr % page_size ≡ 0
      → (s' : Machine) × (virt_map fuel s dir vaddr paddr 1 w u ≡ some s')
        × (page_ispresent s' dir vaddr ≡ true)
        × (virt2phys s' dir vaddr ≡ paddr + vaddr % page_size)
  unfolding virt_map
  virt2phys-virt_map zero enough sv sp al = absurd (omega arith)
  virt2phys-virt_map (suc zero) enough sv sp al = absurd (omega arith)
  virt2phys-virt_map (suc (suc fuel)) enough sv sp al = (
    set_page s (table_of s.words dir vaddr) vaddr paddr w u,
    rw (page_addr-zero vaddr sv, page_addr-zero paddr sp) at
        (map_from-one fuel s dir vaddr paddr w u (rw (page_addr-zero vaddr sv) there)),
    mapped-page_ispresent,
    mapped-virt2phys sp al,
  )

  abbrev zeroed : Machine
  zeroed = store_word s (pte_addr (table_of s.words dir vaddr) vaddr) 0

  zeroed-pde : zeroed.words (pde_addr dir vaddr) ≡ s.words (pde_addr dir vaddr)
  unfolding store_word
  zeroed-pde = ground (arith, apart)

  zeroed-pte : zeroed.words (pte_addr (table_of s.words dir vaddr) vaddr) ≡ 0
  unfolding store_word
  zeroed-pte = rw (==_refl (pte_addr (table_of s.words dir vaddr) vaddr)) refl

  zeroed-page_ispresent : page_ispresent zeroed dir vaddr ≡ false
  unfolding page_ispresent present
  zeroed-page_ispresent = rw (zeroed-pde, there, zeroed-pte) refl

  unmapped : page_ispresent (unmap_page s dir vaddr) dir vaddr ≡ false
  unfolding unmap_page page_ispresent
  unmapped = elim (Bool-cases (present (s.words (pte_addr (table_of s.words dir vaddr) vaddr)))) [
    | inl is ↦ rw is zeroed-page_ispresent
    | inr not_is ↦ rw not_is (rw (there, not_is) refl)
  ]

  -- Unmapping such a page makes it absent.
  pub page_ispresent-virt_unmap :
      vaddr < 2 ^ 32 → page_ispresent (virt_unmap s dir vaddr 1) dir vaddr ≡ false
  unfolding virt_unmap unmap_from
  page_ispresent-virt_unmap sv = rw (page_addr-zero vaddr sv) unmapped

-- The state behind the round of `virt_map` that gives a directory a new table at `pt`.
abbrev with_table : Machine → ℕ → ℕ → ℕ → ℕ → ℕ → ℕ → Machine
with_table t dir vaddr paddr pt w u =
    set_page
      (store_word t (pde_addr dir vaddr)
        (set_entry (t.words (pde_addr dir vaddr)) w u (pde_addr dir vaddr / page_size)))
      pt vaddr paddr w u

map_from-missing :
    (fuel : ℕ) (s t : Machine) (dir vaddr paddr pt w u : ℕ)
    → present (s.words (pde_addr dir (page_addr vaddr 0))) ≡ false
    → mem_allocident (suc fuel) s dir 1 w 0 ≡ some (pt, t)
    → map_from (suc (suc fuel)) s dir vaddr paddr 0 1 w u
      ≡ some (with_table t dir (page_addr vaddr 0) (page_addr paddr 0) pt w u)
unfolding map_from
map_from-missing fuel s t dir vaddr paddr pt w u absent got = ground (arith, absent, got)

with_table-pde :
    (t : Machine) (dir vaddr paddr pt w u : ℕ)
    → pte_addr pt vaddr ≢ pde_addr dir vaddr
    → (with_table t dir vaddr paddr pt w u).words (pde_addr dir vaddr)
      ≡ set_entry (t.words (pde_addr dir vaddr)) w u (pde_addr dir vaddr / page_size)
unfolding set_page store_word
with_table-pde t dir vaddr paddr pt w u apart = ground (arith, apart)

-- Where the directory lacks the table, and the table that `virt_map` gets does not lie over the
-- entry, the entry that it makes does not lead to the table, but to the page that holds the entry
-- itself.
pub virt_map_own_frame :
    (fuel : ℕ) (s t : Machine) (dir vaddr paddr pt w u : ℕ)
    → vaddr < 2 ^ 32
    → paddr < 2 ^ 32
    → pde_addr dir vaddr < 2 ^ 32
    → present (s.words (pde_addr dir vaddr)) ≡ false
    → mem_allocident (suc fuel) s dir 1 w 0 ≡ some (pt, t)
    → pte_addr pt vaddr ≢ pde_addr dir vaddr
    → (s' : Machine) × (virt_map (suc (suc fuel)) s dir vaddr paddr 1 w u ≡ some s')
      × (table_of s'.words dir vaddr ≡ pde_addr dir vaddr / page_size * page_size)
unfolding virt_map
virt_map_own_frame fuel s t dir vaddr paddr pt w u sv sp sd absent got apart = (
  with_table t dir vaddr paddr pt w u,
  rw (page_addr-zero vaddr sv, page_addr-zero paddr sp) at
      (map_from-missing fuel s t dir vaddr paddr pt w u (rw (page_addr-zero vaddr sv) absent) got),
  rw
      (
        with_table-pde t dir vaddr paddr pt w u apart,
        frame-set_entry (t.words (pde_addr dir vaddr)) w u (pde_addr dir vaddr / page_size)
            (omega arith),
      )
      (omega arith),
)
