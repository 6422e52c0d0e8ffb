-- ===== src/Pci/Scan/Depth.antt =====
-- How deep the scan of newland/arch/x86/modules/bus/pci.c goes.
use stardustos.Prelude.{
  Bool, Bool-cases, Option, Option-cases, Ret, ap, bit_and, false, if◌then◌else◌, inl, inr,
  is_failed, refl, some, suc, true, value, zero, ℕ, ◌&&◌, ◌+◌, ◌/◌, ◌==◌, ◌>>=◌, ◌^◌, ◌∙◌, ◌≡◌,
}
use stardustos.Pci.{
  Machine, PciDev, address, pci_addr, pci_read32, pci_val, pcidev_get2ndbus, pcidev_gethdrtype,
  pcidev_getvendor,
}
use stardustos.Pci.Scan.{
  Pci, check_bus, check_dev, check_func, check_one, follow, for_each, found_dev, scan_buses,
  scan_func,
}

for_each-cong :
    {S : Type 0} (f g : ℕ → S → Option (Ret × S)) (i n : ℕ) (s : S)
    → ((j : ℕ) (t : S) → f j t ≡ g j t)
    → for_each f i n s ≡ for_each g i n s
unfolding for_each
for_each-cong f g i zero s same = refl
for_each-cong f g i (suc n) s same = elim (Option-cases (g i s)) [
  | inl e ↦ rw (same i s, e) refl
  | inr (r, e) ↦ elim (Bool-cases (is_failed r.0)) [
    | inl bad ↦ rw (same i s, e, bad) refl
    | inr good ↦ rw (same i s, e, good) (for_each-cong f g (i + 1) n r.1 same)
  ]
]

-- The test of check_func on the register that it reads.
abbrev pub is_bridge : ℕ → Bool
is_bridge r = (bit_and (r / 2 ^ 24) 255 == 6) && (bit_and (r / 2 ^ 16) 255 == 4)

tested_twice :
    {A : Type 0} (b : Bool) (x y z : A)
    → (if b then x else if b then y else z) ≡ (if b then x else z)
tested_twice true x y z = refl
tested_twice false x y z = refl

module _ {W : Type 0} (m : Machine W) (config : ℕ → ℕ)
    (fixed : (a : ℕ) (w : W) → (m.inl pci_val (m.outl pci_addr a w)).0 ≡ config a) where
  pub read-config : (d : PciDev) (reg : ℕ) (w : W) → (pci_read32 m d reg w).0 ≡ config (address d)
  unfolding pci_read32
  read-config d reg w = fixed (address d) w

  abbrev pub class_read : PciDev → Ret × Pci W → ℕ × W
  class_read d r = pci_read32 m d 8 r.1.hw

  pub follow_test :
      (f : ℕ → Pci W → Option (Ret × Pci W)) (d : PciDev) (r : Ret × Pci W)
      → follow m f d r ≡ (
          let subclass = pci_read32 m d 8 (class_read d r).1 in
          let second = pcidev_get2ndbus m d subclass.1 in
          if is_failed r.0
          then some r
          else if is_bridge (config (address d))
          then (f second.0 (record r.1 { hw = second.1 }) >>= λ sub.
              some (if is_failed sub.0 then sub else (value 0, sub.1)))
          else some (value 0, record r.1 { hw = subclass.1 }))
  unfolding follow
  follow_test f d r = rw (read-config d 8 r.1.hw, read-config d 8 (class_read d r).1) refl

  -- The scan without bridges, by what the functions' first registers read: no fuel, and no bus behind
  -- another. `read` is the state of the hardware after a read of a function's register.
  abbrev pub read : PciDev → W → W
  read d w = (pci_read32 m d 0 w).1

  abbrev pub is_absent : PciDev → Bool
  is_absent d = bit_and (config (address d)) 65535 == 65535

  abbrev pub at : ℕ → ℕ → ℕ → PciDev
  at bus slot func = record { bus = bus; slot = slot; func = func }

  abbrev pub reading : PciDev → Pci W → Pci W
  reading d s = record s { hw = read d s.hw }

  unfoldable pub flat_func : ℕ → ℕ → ℕ → Pci W → Option (Ret × Pci W)
  flat_func bus slot func s =
      let d = at bus slot func in
      if is_absent d
      then some (value 0, reading d s)
      else (found_dev m (reading d (reading d s)) d >>= λ r.
          some (if is_failed r.0 then r else (value 0, reading d (reading d r.1))))

  unfoldable pub flat_dev : ℕ → ℕ → Pci W → Option (Ret × Pci W)
  unfolding flat_func
  flat_dev bus slot s =
      if is_absent (at bus slot 0)
      then some (value 0, reading (at bus slot 0) s)
      else for_each (flat_func bus slot) 0 8 (reading (at bus slot 0) s)

  unfoldable pub flat_bus : ℕ → Pci W → Option (Ret × Pci W)
  unfolding flat_dev
  flat_bus bus s = for_each (flat_dev bus) 0 32 s

  unfoldable pub flat_host : ℕ → Pci W → Option (Ret × Pci W)
  unfolding flat_bus
  flat_host func s =
      if is_absent (at 0 0 func)
      then some (value 0, reading (at 0 0 func) s)
      else flat_bus func (reading (at 0 0 func) s)

  unfoldable pub flat_scan : Pci W → Option (Ret × Pci W)
  unfolding flat_bus flat_host
  flat_scan s =
      if bit_and (bit_and (config (address (at 0 0 0)) / 2 ^ 16) 255) 128 == 0
      then flat_bus 0 (reading (at 0 0 0) s)
      else for_each flat_host 0 8 (reading (at 0 0 0) s)

  vendor-config :
      (d : PciDev) (w : W) → (pcidev_getvendor m d w).0 ≡ bit_and (config (address d)) 65535
  unfolding pcidev_getvendor
  vendor-config d w = ap (λ c. bit_and c 65535) (read-config d 0 w)

  module _ (flat : (d : PciDev) → is_bridge (config (address d)) ≡ false) where
    follow-flat :
        (f : ℕ → Pci W → Option (Ret × Pci W)) (d : PciDev) (r : Ret × Pci W)
        → follow m f d r ≡ some (if is_failed r.0 then r else (value 0, reading d (reading d r.1)))
    unfolding pci_read32
    follow-flat f d r = elim (Bool-cases (is_failed r.0)) [
      | inl e ↦ rw (follow_test f d r, flat d, e) refl
      | inr e ↦ rw (follow_test f d r, flat d, e) refl
    ]

    check_func-flat :
        (f : ℕ → Pci W → Option (Ret × Pci W)) (bus slot func : ℕ) (s : Pci W)
        → check_func m f bus slot func s ≡ (
            let d = at bus slot func in
            if is_absent d
            then some (value 0, reading d s)
            else (found_dev m (reading d s) d >>= λ r.
                some (if is_failed r.0 then r else (value 0, reading d (reading d r.1)))))
    unfolding check_func pcidev_getvendor
    check_func-flat f bus slot func s =
        let d = at bus slot func in
        λ i.
          if vendor-config d s.hw i == 65535
          then some (value 0, reading d s)
          else (found_dev m (reading d s) d >>= λ r. follow-flat f d r i)

    check_one-flat :
        (f : ℕ → Pci W → Option (Ret × Pci W)) (bus slot func : ℕ) (s : Pci W)
        → check_one m f bus slot func s ≡ flat_func bus slot func s
    unfolding check_one flat_func pcidev_getvendor
    check_one-flat f bus slot func s =
        let d = at bus slot func in
        (λ i.
          if vendor-config d s.hw i == 65535
          then some (value 0, reading d s)
          else check_func-flat f bus slot func (reading d s) i)
        ∙ tested_twice (is_absent d) (some (value 0, reading d s))
            (some (value 0, reading d (reading d s)))
            (found_dev m (reading d (reading d s)) d >>= λ r.
              some (if is_failed r.0 then r else (value 0, reading d (reading d r.1))))

    check_dev-flat :
        (f : ℕ → Pci W → Option (Ret × Pci W)) (bus slot : ℕ) (s : Pci W)
        → check_dev m f bus slot s ≡ flat_dev bus slot s
    unfolding check_dev flat_dev pcidev_getvendor
    check_dev-flat f bus slot s =
        let d = at bus slot 0 in
        λ i.
          if vendor-config d s.hw i == 65535
          then some (value 0, reading d s)
          else for_each-cong (check_one m f bus slot) (flat_func bus slot) 0 8 (reading d s)
              (check_one-flat f bus slot) i

    check_bus-flat : (fuel bus : ℕ) (s : Pci W) → check_bus m (suc fuel) bus s ≡ flat_bus bus s
    unfolding check_bus flat_bus
    check_bus-flat fuel bus s =
        for_each-cong (check_dev m (check_bus m fuel) bus) (flat_dev bus) 0 32 s
          (check_dev-flat (check_bus m fuel) bus)

    scan_func-flat : (fuel func : ℕ) (s : Pci W) → scan_func m (suc fuel) func s ≡ flat_host func s
    unfolding scan_func flat_host pcidev_getvendor
    scan_func-flat fuel func s =
        let d = at 0 0 func in
        λ i.
          if vendor-config d s.hw i == 65535
          then some (value 0, reading d s)
          else check_bus-flat fuel func (reading d s) i

    -- On a machine where a function's first register always reads the same, and that of none reads
    -- 0x0604 in its upper half, the scan with any fuel of 1 or more is the plain loop over the
    -- functions of the host's buses: it never goes behind a bridge, and ends, but for a fault in
    -- found_dev.
    pub scan_buses-flat : (fuel : ℕ) (s : Pci W) → scan_buses m (suc fuel) s ≡ flat_scan s
    unfolding scan_buses flat_scan pcidev_gethdrtype
    scan_buses-flat fuel s =
        let d = at 0 0 0 in
        λ i.
          if bit_and (bit_and (read-config d 12 s.hw i / 2 ^ 16) 255) 128 == 0
          then check_bus-flat fuel 0 (reading d s) i
          else for_each-cong (scan_func m (suc fuel)) flat_host 0 8 (reading d s)
              (scan_func-flat fuel) i
