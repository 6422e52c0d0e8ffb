-- ===== src/Pci/Scan.antt =====
-- The scan of newland/arch/x86/modules/bus/pci.c: found_dev, the check functions, scan_buses and
-- the entry of the module. The recursion through a bridge takes fuel.
use stardustos.Prelude.{
  Bool, List, Option, Ret, [], bit_and, bit_or, codes, get_or, if◌then◌else◌, is_failed, is_some,
  leb, ltb, none, set, some, str_eq, suc, value, zero, ℕ, ◌%◌, ◌&&◌, ◌*◌, ◌+◌, ◌-◌, ◌/◌, ◌==◌,
  ◌>>=◌, ◌^◌, ◌||◌, ◌∷◌,
}
use stardustos.Pci.{
  Machine, PciDev, genres, location, pci_read32, pci_write32, pcidev_get2ndbus, pcidev_getdevice,
  pcidev_gethdrtype, pcidev_getintline, pcidev_getintpin, pcidev_getvendor,
}
use stardustos.Pci.Names.{dev_name}
use stardustos.Bus.{
  Bus, BusDev, Buses, bus_adddev, bus_fromname, bus_getdevbyname, register_bus, unregister_bus,
}
pub mod Depth
pub mod Endless
pub mod Resources

-- The hardware, the buses, `isa` where `hasisa` is set, and `remaps`.
pub record Pci (W : Type 0) : Type 0 where
  pub hw : W
  pub buses : Buses
  pub isa : Option PciDev
  pub remaps : List ℕ

-- A write through the `bus_t*` of the first bus with a name.
unfoldable pub set_bus : List ℕ → Bus → List Bus → List Bus
set_bus name bus [] = []
set_bus name bus (b ∷ bs) = if str_eq b.name name then bus ∷ bs else b ∷ set_bus name bus bs

-- A write through the `bus_dev_t*` of the first device with a name.
unfoldable pub set_dev : List ℕ → BusDev → List BusDev → List BusDev
set_dev name dev [] = []
set_dev name dev (d ∷ ds) = if str_eq d.name name then dev ∷ ds else d ∷ set_dev name dev ds

abbrev pub pci_name : List ℕ
pci_name = codes "pci"

-- A loop from `i` that ends early on an error.
unfoldable pub for_each : {S : Type 0} → (ℕ → S → Option (Ret × S)) → ℕ → ℕ → S → Option (Ret × S)
for_each body i zero s = some (value 0, s)
for_each body i (suc rounds) s =
    body i s >>= λ r. if is_failed r.0 then some r else for_each body (i + 1) rounds r.1

module _ {W : Type 0} (m : Machine W) where
  -- With an ISA bridge the line comes from `remaps`; an index of -1 is a fault.
  unfoldable pub pci_getint : Pci W → PciDev → Option (ℕ × Pci W)
  pci_getint s addr = elim s.isa [
    | none ↦ let line = pcidev_getintline m addr s.hw in some (line.0, record s { hw = line.1 })
    | some isa ↦
        let irqpin = pcidev_getintpin m addr s.hw in
        let intline = pcidev_getintline m addr irqpin.1 in
        let pirq = (irqpin.0 + addr.slot - 2) % 4 in
        let remap = get_or s.remaps pirq 0 in
        if irqpin.0 == 0
        then some (intline.0, record s { hw = intline.1 })
        else if ltb (irqpin.0 + addr.slot) 2
        then none
        else if leb 128 remap
        then (if intline.0 == 255
            then some (
              10,
              record s {
                hw = pci_write32 m addr 60 (bit_or 10 255 * 2 ^ 16) intline.1;
                remaps = set s.remaps pirq 10;
              },
            )
            else some (intline.0, record s { hw = intline.1 }))
        else some (
          remap % 2 ^ 8,
          record s { hw = pci_write32 m addr 60 (bit_or remap 255 * 2 ^ 16) intline.1 },
        )
  ]

  -- The loop over the six base address registers.
  unfoldable pub all_res : PciDev → ℕ → ℕ → BusDev → W → Ret × BusDev × W
  unfolding genres
  all_res addr i zero dev w = (value 0, dev, w)
  all_res addr i (suc rounds) dev w =
      let r = genres m addr dev i w in
      let rest = all_res addr (i + 1) rounds r.1 r.2 in if is_failed r.0 then r else rest

  abbrev pub with_int : ℕ → BusDev → BusDev
  with_int intr d = if intr == 0 then d else record d { flags = bit_or d.flags 1; interrupt = intr }

  abbrev pub put_dev : Pci W → Bus → List ℕ → BusDev → Pci W
  put_dev s bus name dev = record s {
    buses = record s.buses {
      buses =
          set_bus pci_name (record bus { dev_list = set_dev name dev bus.dev_list }) s.buses.buses;
    };
  }

  -- The device in the list, filled in.
  unfoldable pub fill_dev : Pci W → PciDev → Bus → List ℕ → BusDev → ℕ → Ret × Pci W
  unfolding all_res set_bus set_dev
  fill_dev s addr bus name found intr =
      let dev = record (with_int intr found) { addr = location addr } in
      let hdr = pcidev_gethdrtype m addr s.hw in
      let full = all_res addr 0 6 dev hdr.1 in
      if bit_and hdr.0 128 == 0
      then (full.0, put_dev (record s { hw = full.2 }) bus name full.1)
      else (value 0, put_dev (record s { hw = hdr.1 }) bus name dev)

  -- 0x8086, 0x7000 and 0x7110
  abbrev pub is_isa : ℕ → ℕ → Bool
  is_isa vid did = (vid == 32902) && (did == 28672 || did == 28944)

  unfoldable pub found_dev : Pci W → PciDev → Option (Ret × Pci W)
  unfolding pci_getint fill_dev
  found_dev s addr =
      let did = pcidev_getdevice m addr s.hw in
      let vid = pcidev_getvendor m addr did.1 in
      let read = record s { hw = vid.1 } in
      if vid.0 == 65535 then some (value 0, read) else do
        name ← dev_name addr
        bus ← bus_fromname read.buses pci_name
        let fresh : Option BusDev × W =
            if is_some (bus_getdevbyname bus name) then (none, read.hw) else m.alloc_dev read.hw
        added ← bus_adddev bus fresh.0 name
        found ← bus_getdevbyname added.1 name
        line ← pci_getint (put_dev (record read { hw = fresh.1 }) added.1 name found) addr
        let filled = fill_dev line.1 addr added.1 name found line.0
        let isa = if is_isa vid.0 did.0 then some addr else filled.1.isa
        some (if is_failed filled.0 then filled else (value 0, record filled.1 { isa = isa }))

  -- What follows `found_dev` in check_func. `check_bus` for the bus behind a bridge is an argument.
  unfoldable pub follow :
      (ℕ → Pci W → Option (Ret × Pci W)) → PciDev → Ret × Pci W → Option (Ret × Pci W)
  follow check_bus addr r =
      let class = pci_read32 m addr 8 r.1.hw in
      let subclass = pci_read32 m addr 8 class.1 in
      let second = pcidev_get2ndbus m addr subclass.1 in
      if is_failed r.0
      then some r
      else if (bit_and (class.0 / 2 ^ 24) 255 == 6) && (bit_and (subclass.0 / 2 ^ 16) 255 == 4)
      then (check_bus second.0 (record r.1 { hw = second.1 }) >>= λ sub.
          some (if is_failed sub.0 then sub else (value 0, sub.1)))
      else some (value 0, record r.1 { hw = subclass.1 })

  unfoldable pub check_func :
      (ℕ → Pci W → Option (Ret × Pci W)) → ℕ → ℕ → ℕ → Pci W → Option (Ret × Pci W)
  unfolding found_dev follow
  check_func check_bus bus dev func s =
      let addr : PciDev = record { bus = bus; slot = dev; func = func } in
      let vid = pcidev_getvendor m addr s.hw in
      let read = record s { hw = vid.1 } in
      if vid.0 == 65535
      then some (value 0, read)
      else (found_dev read addr >>= follow check_bus addr)

  -- One function of a device: the vendor is read before the call.
  unfoldable pub check_one :
      (ℕ → Pci W → Option (Ret × Pci W)) → ℕ → ℕ → ℕ → Pci W → Option (Ret × Pci W)
  unfolding check_func
  check_one check_bus bus dev func s =
      let addr : PciDev = record { bus = bus; slot = dev; func = func } in
      let vid = pcidev_getvendor m addr s.hw in
      let read = record s { hw = vid.1 } in
      if vid.0 == 65535 then some (value 0, read) else check_func check_bus bus dev func read

  unfoldable pub check_dev :
      (ℕ → Pci W → Option (Ret × Pci W)) → ℕ → ℕ → Pci W → Option (Ret × Pci W)
  unfolding check_one for_each
  check_dev check_bus bus dev s =
      let vid = pcidev_getvendor m (record { bus = bus; slot = dev; func = 0 }) s.hw in
      let read = record s { hw = vid.1 } in
      if vid.0 == 65535
      then some (value 0, read)
      else for_each (check_one check_bus bus dev) 0 8 read

  unfoldable pub check_bus : ℕ → ℕ → Pci W → Option (Ret × Pci W)
  unfolding check_dev for_each
  check_bus zero bus s = none
  check_bus (suc fuel) bus s = for_each (check_dev (check_bus fuel) bus) 0 32 s

  -- One host controller of several.
  unfoldable pub scan_func : ℕ → ℕ → Pci W → Option (Ret × Pci W)
  unfolding check_bus
  scan_func fuel func s =
      let vid = pcidev_getvendor m (record { bus = 0; slot = 0; func = func }) s.hw in
      let read = record s { hw = vid.1 } in
      if vid.0 == 65535 then some (value 0, read) else check_bus fuel func read

  unfoldable pub scan_buses : ℕ → Pci W → Option (Ret × Pci W)
  unfolding check_bus scan_func for_each
  scan_buses fuel s =
      let header = pcidev_gethdrtype m (record { bus = 0; slot = 0; func = 0 }) s.hw in
      let read = record s { hw = header.1 } in
      if bit_and header.0 128 == 0
      then check_bus fuel 0 read
      else for_each (scan_func fuel) 0 8 read

  -- `MODULE_INIT(bus_pci)`: `fresh` is what `kmalloc` gives for the bus.
  unfoldable pub bus_pci_init : ℕ → Pci W → Option Bus → Option (Ret × Pci W)
  unfolding scan_buses
  bus_pci_init fuel s fresh = do
    registered ← register_bus s.buses fresh none pci_name
    let with_bus = record s { buses = registered.1 }
    if is_failed registered.0
        then some (registered.0, with_bus)
        else (scan_buses fuel with_bus >>= λ scanned.
            bus_fromname scanned.1.buses pci_name >>= λ bus. some scanned)

  -- `MODULE_FINI(bus_pci)`
  unfoldable pub bus_pci_fini : Pci W → Pci W
  bus_pci_fini s = record s { buses = (unregister_bus s.buses pci_name).1 }
