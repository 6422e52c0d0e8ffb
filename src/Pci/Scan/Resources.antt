-- ===== src/Pci/Scan/Resources.antt =====
-- What genres of newland/arch/x86/modules/bus/pci.c records.
use stardustos.Prelude.{
  Bool-cases, arith, false, if◌then◌else◌, inl, inr, refl, true, value, ℕ, ◌%◌, ◌*◌, ◌+◌, ◌-◌, ◌<◌,
  ◌==◌, ◌^◌, ◌≡◌,
}
use stardustos.Pci.Scan.Depth.{read-config}
use stardustos.Bus.{BusDev}
use stardustos.Pci.{
  Machine, PciDev, add_res, address, bar_res, genres, keep_res, pci_addr, pci_read32, pci_val,
  pci_write32,
}

bar_res-size : (v s : ℕ) → (bar_res v s).size ≡ s
unfolding bar_res
bar_res-size v s = ground arith

module _ {W : Type 0} (m : Machine W) (config : ℕ → ℕ)
    (fixed : (a : ℕ) (w : W) → (m.inl pci_val (m.outl pci_addr a w)).0 ≡ config a) where
  keep_res-same :
      (c : ℕ) (dev : BusDev) (w : W)
      → 0 < c
      → c < 2 ^ 32
      → (m.alloc_res w).0 ≡ true
      → ((keep_res m c c dev w).0 ≡ value 0)
        × ((keep_res m c c dev w).1 ≡ (
            if (bar_res c (2 ^ 32 - c)).value == 0
            then dev
            else add_res (bar_res c (2 ^ 32 - c)) dev))
        × ((bar_res c (2 ^ 32 - c)).size + c ≡ 2 ^ 32)
  unfolding keep_res
  keep_res-same c dev w some_id word memory =
      let size : (2 ^ 32 - c) % 2 ^ 32 ≡ 2 ^ 32 - c = ground arith in
      let left : (2 ^ 32 - c == 0) ≡ false = ground arith in
      let id : (c == 0) ≡ false = ground arith in
      let kept = bar_res-size c (2 ^ 32 - c) in
      let big : ((bar_res c (2 ^ 32 - c)).size == 0) ≡ false = rw kept left in
      rw (size, left, id, memory, big)
        (elim (Bool-cases ((bar_res c (2 ^ 32 - c)).value == 0)) [
          | inl e ↦ rw e (refl, refl, omega (arith, kept, word))
          | inr e ↦ rw e (refl, refl, omega (arith, kept, word))
        ])

  -- With memory left, and an id that is not 0, genres records the same resource for each of the base
  -- address registers, or nothing: the one that the id stands for, with a size that is the id's
  -- negation.
  pub genres-config :
      (d : PciDev) (dev : BusDev) (index : ℕ) (w : W)
      → 0 < config (address d)
      → config (address d) < 2 ^ 32
      → ((v : W) → (m.alloc_res v).0 ≡ true)
      → let res = bar_res (config (address d)) (2 ^ 32 - config (address d)) in
        ((genres m d dev index w).0 ≡ value 0)
        × ((genres m d dev index w).1 ≡ (if res.value == 0 then dev else add_res res dev))
        × (res.size + config (address d) ≡ 2 ^ 32)
  unfolding genres
  genres-config d dev index w some_id word memory =
      let barindex = ((index * 4) % 2 ^ 8 + 16) % 2 ^ 8 in
      let first = pci_read32 m d barindex w in
      let second = pci_read32 m d barindex (pci_write32 m d barindex (2 ^ 32 - 1) first.1) in
      let kept = keep_res-same (config (address d)) dev second.1 some_id word (memory second.1) in
      rw
        (
          read-config m config fixed d barindex w,
          read-config m config fixed d barindex (pci_write32 m d barindex (2 ^ 32 - 1) first.1),
        )
        kept
