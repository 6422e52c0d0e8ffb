-- ===== src/Phys/Examples.antt =====
-- Page allocation of newland/arch/x86/src/mem.c in a small memory.
use stardustos.Prelude.{
  arith, false, if◌then◌else◌, refl, true, ℕ, ◌*◌, ◌-◌, ◌/◌, ◌<◌, ◌==◌, ◌^◌, ◌||◌, ◌≡◌, ◌⊎◌,
}
use stardustos.Phys.{
  Phys, isused_from, page_size, phys_alloc, phys_isused, phys_setfree, phys_setused,
  physical_is_used, test_bit,
}
use stardustos.Phys.Alloc.{phys_alloc_lem, phys_setfree-phys_setused}
use stardustos.Phys.Pages.{AreBytes, page_used}
use stardustos.Phys.Ranges.{in_range}

-- Four pages of memory, the first of which is in use.
abbrev four_pages : Phys
four_pages = record { mem = λ i. if i == 0 then 1 else 0; used_mem = 4096; total_mem = 16384 }

-- One page of memory, which is free.
abbrev one_page : Phys
one_page = record { mem = λ i. 0; used_mem = 0; total_mem = 4096 }

four_pages-AreBytes : AreBytes four_pages.mem
four_pages-AreBytes i = ground arith

phys_alloc_lem_example :
    ((page : ℕ) × (page < four_pages.total_mem / page_size)
      × ((phys_alloc four_pages 2).0 ≡ page * page_size)
      × ((q : ℕ) → in_range page 2 q ≡ true → page_used four_pages.mem q ≡ false)
      × ((q : ℕ)
          → page_used (phys_alloc four_pages 2).1.mem q
            ≡ (in_range page 2 q || page_used four_pages.mem q)))
    ⊎ ((phys_alloc four_pages 2 ≡ (2 ^ 32 - 1, four_pages))
        × ((page : ℕ)
            → page < four_pages.total_mem / page_size
            → ¬ ((q : ℕ) → in_range page 2 q ≡ true → page_used four_pages.mem q ≡ false)))
phys_alloc_lem_example = phys_alloc_lem four_pages 2 four_pages-AreBytes (omega arith)

phys_setfree-phys_setused_example :
    ((q : ℕ)
      → page_used (phys_setfree (phys_setused four_pages 4096 2) 4096 2).mem q
        ≡ page_used four_pages.mem q)
    × ((phys_setfree (phys_setused four_pages 4096 2) 4096 2).used_mem ≡ 4096)
unfolding phys_isused isused_from physical_is_used test_bit
phys_setfree-phys_setused_example =
    phys_setfree-phys_setused four_pages 4096 2 four_pages-AreBytes (omega arith) (omega arith) refl
