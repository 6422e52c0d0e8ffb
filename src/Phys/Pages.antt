-- ===== src/Phys/Pages.antt =====
-- One page of the page map in newland/arch/x86/src/mem.c: marking it changes its own bit only.
use stardustos.Prelude.{Bool, arith, not, refl, ℕ, ◌%◌, ◌&&◌, ◌/◌, ◌<◌, ◌==◌, ◌||◌, ◌≡◌}
use stardustos.Phys.{
  Phys, free_page, page_size, physical_is_used, physical_set_free, physical_set_used, test_bit,
  use_page,
}
use stardustos.Phys.Bits.{bits_range, test_bit-clear_bit, test_bit-set_bit}

-- The abstract view: whether the page with a number is in use.
unfoldable pub page_used : (ℕ → ℕ) → ℕ → Bool
page_used m q = test_bit (m (q / 8)) (q % 8)

-- `unsigned char`
abbrev pub AreBytes : (ℕ → ℕ) → Type 0
AreBytes m = (i : ℕ) → m i < 256

pub physical_is_used-eq :
    (m : ℕ → ℕ) (addr : ℕ) → physical_is_used m addr ≡ page_used m (addr / page_size)
unfolding physical_is_used page_used
physical_is_used-eq m addr = refl

module _ (m : ℕ → ℕ) (addr : ℕ) (b : AreBytes m) where
  pub page_used-set_used :
      (q : ℕ) → page_used (physical_set_used m addr) q ≡ (addr / page_size == q || page_used m q)
  unfolding physical_set_used page_used
  page_used-set_used q = ground (
    arith,
    test_bit-set_bit (m (q / 8)) (addr / page_size % 8) (q % 8) (b (q / 8)) (omega arith)
        (omega arith),
  )

  pub page_used-set_free :
      (q : ℕ)
      → page_used (physical_set_free m addr) q ≡ (not (addr / page_size == q) && page_used m q)
  unfolding physical_set_free page_used
  page_used-set_free q = ground (
    arith,
    test_bit-clear_bit (m (q / 8)) (addr / page_size % 8) (q % 8) (b (q / 8)) (omega arith)
        (omega arith),
  )

  pub set_used-AreBytes : AreBytes (physical_set_used m addr)
  unfolding physical_set_used
  set_used-AreBytes i =
      ground (arith, b i, (bits_range (m i) (addr / page_size % 8) (b i) (omega arith)).0)

  pub set_free-AreBytes : AreBytes (physical_set_free m addr)
  unfolding physical_set_free
  set_free-AreBytes i =
      ground (arith, b i, (bits_range (m i) (addr / page_size % 8) (b i) (omega arith)).1)

-- The same for a whole step of the loops.
module _ (s : Phys) (addr : ℕ) (b : AreBytes s.mem) where
  pub page_used-use_page :
      (q : ℕ) → page_used (use_page s addr).mem q ≡ (addr / page_size == q || page_used s.mem q)
  unfolding use_page
  page_used-use_page q =
      ground (arith, physical_is_used-eq s.mem addr, page_used-set_used s.mem addr b q)

  pub page_used-free_page :
      (q : ℕ)
      → page_used (free_page s addr).mem q ≡ (not (addr / page_size == q) && page_used s.mem q)
  unfolding free_page
  page_used-free_page q =
      ground (arith, physical_is_used-eq s.mem addr, page_used-set_free s.mem addr b q)

  pub use_page-AreBytes : AreBytes (use_page s addr).mem
  unfolding use_page
  use_page-AreBytes i = ground (arith, b i, set_used-AreBytes s.mem addr b i)

  pub free_page-AreBytes : AreBytes (free_page s addr).mem
  unfolding free_page
  free_page-AreBytes i = ground (arith, b i, set_free-AreBytes s.mem addr b i)
