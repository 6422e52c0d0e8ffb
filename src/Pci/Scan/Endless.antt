-- ===== src/Pci/Scan/Endless.antt =====
-- The scan of newland/arch/x86/modules/bus/pci.c behind a device of the id 0x0604.
use stardustos.Prelude.{
  Option, Ret, ap, arith, bit_and, false, none, refl, some, subst, suc, sym, true, value, zero, ℕ,
  ◌/◌, ◌==◌, ◌^◌, ◌∙◌, ◌≡◌,
}
use stardustos.Pci.{
  Machine, PciDev, address, pci_addr, pci_read32, pci_val, pcidev_get2ndbus, pcidev_getvendor,
}
use stardustos.Pci.Scan.{
  Pci, check_bus, check_dev, check_func, check_one, follow, for_each, found_dev,
}
use stardustos.Pci.Scan.Depth.{follow_test, is_bridge, read-config}

for_each-none :
    {S : Type 0} (f : ℕ → S → Option (Ret × S)) (i n : ℕ) (s : S)
    → f i s ≡ none
    → for_each f i (suc n) s ≡ none
unfolding for_each
for_each-none f i n s never = rw never refl

module _ {W : Type 0} (m : Machine W) (config : ℕ → ℕ)
    (fixed : (a : ℕ) (w : W) → (m.inl pci_val (m.outl pci_addr a w)).0 ≡ config a) where
  abbrev bridge_at_6 : PciDev
  bridge_at_6 = record { bus = 6; slot = 0; func = 0 }

  vendor-config :
      (d : PciDev) (w : W) → (pcidev_getvendor m d w).0 ≡ bit_and (config (address d)) 65535
  unfolding pcidev_getvendor
  vendor-config d w = ap (λ c. bit_and c 65535) (read-config m config fixed d 0 w)

  second-config :
      (d : PciDev) (w : W) → (pcidev_get2ndbus m d w).0 ≡ bit_and (config (address d) / 2 ^ 24) 255
  unfolding pcidev_get2ndbus
  second-config d w = ap (λ c. bit_and (c / 2 ^ 24) 255) (read-config m config fixed d 24 w)

  -- `P` holds of the states that the scan comes to: found_dev goes on from them without a fault or an
  -- error, and the hardware does not matter.
  module _ (bridge : is_bridge (config (address bridge_at_6)) ≡ true)
      (there : (bit_and (config (address bridge_at_6)) 65535 == 65535) ≡ false) (P : Pci W → Type 0)
      (found : (s : Pci W)
        → P s
        → (t : Pci W) × (found_dev m s bridge_at_6 ≡ some (value 0, t)) × P t)
      (hardware : (s : Pci W) (w : W) → P s → P (record s { hw = w })) where
    second_bus : (w : W) → (pcidev_get2ndbus m bridge_at_6 w).0 ≡ 6
    second_bus w = second-config bridge_at_6 w ∙ ground (arith, bridge)

    follow-none :
        (f : ℕ → Pci W → Option (Ret × Pci W)) (t : Pci W)
        → P t
        → ((s : Pci W) → P s → f 6 s ≡ none)
        → follow m f bridge_at_6 (value 0, t) ≡ none
    follow-none f t p never =
        let w = (pci_read32 m bridge_at_6 8 (pci_read32 m bridge_at_6 8 t.hw).1).1 in
        let w' = (pcidev_get2ndbus m bridge_at_6 w).1 in
        let stuck : f (pcidev_get2ndbus m bridge_at_6 w).0 (record t { hw = w' }) ≡ none =
          subst (λ b. f b (record t { hw = w' }) ≡ none) (sym (second_bus w))
            (never (record t { hw = w' }) (hardware t w' p)) in
        rw (follow_test m config fixed f bridge_at_6 (value 0, t), bridge, stuck) refl

    check_func-none :
        (f : ℕ → Pci W → Option (Ret × Pci W)) (s : Pci W)
        → P s
        → ((t : Pci W) → P t → f 6 t ≡ none)
        → check_func m f 6 0 0 s ≡ none
    unfolding check_func
    check_func-none f s p never =
        let w = (pcidev_getvendor m bridge_at_6 s.hw).1 in
        let (t, goes_on, q) = found (record s { hw = w }) (hardware s w p) in
        rw (vendor-config bridge_at_6 s.hw, there, goes_on) (follow-none f t q never)

    check_dev-none :
        (f : ℕ → Pci W → Option (Ret × Pci W)) (s : Pci W)
        → P s
        → ((t : Pci W) → P t → f 6 t ≡ none)
        → check_dev m f 6 0 s ≡ none
    unfolding check_dev check_one
    check_dev-none f s p never =
        let read : Pci W = record s { hw = (pcidev_getvendor m bridge_at_6 s.hw).1 } in
        let again : Pci W = record s { hw = (pcidev_getvendor m bridge_at_6 read.hw).1 } in
        rw (vendor-config bridge_at_6 s.hw, there)
          (for_each-none (check_one m f 6 0) 0 7 read (
            rw (vendor-config bridge_at_6 read.hw, there)
              (check_func-none f again (hardware s again.hw p) never)))

    -- On a machine where a function's first register always reads the same, where the first function
    -- of bus 6 reads as a bridge, and is there, and found_dev goes on from every state of the scan
    -- without a fault or an error, the scan of bus 6 uses up every fuel: it goes back to bus 6 for
    -- ever.
    pub check_bus_endless : (fuel : ℕ) (s : Pci W) → P s → check_bus m fuel 6 s ≡ none
    unfolding check_bus
    check_bus_endless zero s p = refl
    check_bus_endless (suc fuel) s p =
        for_each-none (check_dev m (check_bus m fuel) 6) 0 31 s
          (check_dev-none (check_bus m fuel) s p (λ t q. check_bus_endless fuel t q))
