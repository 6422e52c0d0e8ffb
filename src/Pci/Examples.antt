-- ===== src/Pci/Examples.antt =====
-- The PCI bus with a machine that keeps the last address and reads a fixed register.
use stardustos.Prelude.{
  Bool-cases, List, Option, Ret, [], ap, arith, codes, false, if◌then◌else◌, inl, inr, none, refl,
  replicate, some, str_eq, strcpy_into, true, value, ℕ, ◌+◌, ◌-◌, ◌==◌, ◌^◌, ◌∙◌, ◌∷◌, ◌≡◌,
}
use stardustos.Pci.Scan.Endless.{check_bus_endless}
use stardustos.Bus.{BusDev, BusDevRes, bus_adddev, bus_fromname, bus_getdevbyname}
use stardustos.Slist.{find}
use stardustos.Libc.Itoa.{itoa}
use stardustos.Pci.{
  Machine, add_res, address, bar_res, genres, keep_res, pci_addr, pci_read32, pci_write32,
  pcidev_getdevice, pcidev_gethdrtype, pcidev_getintline, pcidev_getvendor,
}
use stardustos.Pci.Names.{dev_name, pci_at}
use stardustos.Pci.Scan.{
  Pci, all_res, check_bus, fill_dev, found_dev, pci_getint, scan_buses, set_bus, set_dev,
}
use stardustos.Pci.Scan.Resources.{genres-config}
use stardustos.Pci.Scan.Depth.{flat_scan, is_bridge, scan_buses-flat}

abbrev machine : (ℕ → ℕ) → Machine ℕ
machine config = record {
  outb = λ port v w. w;
  outw = λ port v w. w;
  outl = λ port v w. if port == pci_addr then v else w;
  inb = λ port w. (0, w);
  inw = λ port w. (0, w);
  inl = λ port w. (config w, w);
  alloc_dev = λ w. (none, w);
  alloc_res = λ w. (true, w);
}

abbrev start : Pci ℕ
start = record {
  hw = 0;
  buses = record { buses = []; buses_count = 0 };
  isa = none;
  remaps = replicate 4 0;
}

-- The first function of the first bus is there, a network card.
abbrev one_function : ℕ → ℕ
one_function a = if a == 2147483648 then 269385862 else 2 ^ 32 - 1

no_bridge : (a : ℕ) → is_bridge (one_function a) ≡ false
no_bridge a = elim (Bool-cases (a == 2147483648)) [ inl e ↦ rw e refl | inr e ↦ rw e refl ]

-- The state of the scan before it: the bus is there, and has no device.
abbrev empty_bus : Pci ℕ
empty_bus = record start {
  buses = record {
    buses = record { name = codes "pci"; type = []; dev_list = []; dev_count = 0 } ∷ [];
    buses_count = 1;
  };
}

abbrev new_dev : BusDev
new_dev = record {
  name = [];
  dname = [];
  addr = 0;
  res_list = [];
  res_count = 0;
  flags = 0;
  interrupt = 0;
}

abbrev roomy : (ℕ → ℕ) → Machine ℕ
roomy config = record (machine config) { alloc_dev = λ w. (some new_dev, w) }

abbrev names_found : Option (Ret × Pci ℕ) → List (List ℕ)
names_found none = []
names_found (some (r, s)) = elim s.buses.buses [
  | [] ↦ []
  | b ∷ bs ↦ elim b.dev_list [ [] ↦ [] | d ∷ ds ↦ d.name ∷ [] ]
]

card_found : names_found (scan_buses (roomy one_function) 1 empty_bus) ≡ codes "000.00.0" ∷ []
unfolding scan_buses pcidev_gethdrtype pcidev_getvendor dev_name bus_fromname find str_eq bus_adddev
    bus_getdevbyname strcpy_into pcidev_getintline
card_found = refl

scan_buses-flat_example :
    scan_buses (roomy one_function) 3 empty_bus
    ≡ flat_scan (roomy one_function) one_function (λ a w. refl) empty_bus
scan_buses-flat_example =
    scan_buses-flat (roomy one_function) one_function (λ a w. refl) (λ d. no_bridge (address d)) 2
      empty_bus

-- A bridge with the id 0x0604 of the vendor 0x1234 as the first function of bus 6.
abbrev bridge_on_6 : ℕ → ℕ
bridge_on_6 a = if a == 2147876864 then 100930100 else 2 ^ 32 - 1

-- The device of the bridge with the resources recorded so far.
abbrev bridge_dev : List BusDevRes → ℕ → BusDev
bridge_dev res count = record {
  name = codes "600.00.0";
  dname = [];
  addr = 393216;
  res_list = res;
  res_count = count;
  flags = 1;
  interrupt = 4;
}

-- The states of the scan: the bus with the bridge alone.
abbrev bridge_state : ℕ → List BusDevRes → ℕ → Pci ℕ
bridge_state w res count = record {
  hw = w;
  buses = record {
    buses =
        record {
          name = codes "pci";
          type = [];
          dev_list = bridge_dev res count ∷ [];
          dev_count = 1;
        }
        ∷ [];
    buses_count = 1;
  };
  isa = none;
  remaps = replicate 4 0;
}

-- What the id stands for, as a base address register.
abbrev bridge_res : BusDevRes
bridge_res = record { value = 100930096; size = 4194037196; type = 2 }

abbrev Scanned : Pci ℕ → Type 0
Scanned s = (w : ℕ) × (res : List BusDevRes) × (count : ℕ) × (s ≡ bridge_state w res count)

bridge_goes_on :
    (w : ℕ) (res : List BusDevRes) (count : ℕ)
    → (t : Pci ℕ) × (found_dev (machine bridge_on_6) (bridge_state w res count) (pci_at 6 0 0)
        ≡ some (value 0, t))
      × Scanned t
unfolding found_dev pcidev_getvendor pcidev_getdevice pcidev_gethdrtype pcidev_getintline dev_name
    bus_fromname find bus_getdevbyname bus_adddev pci_getint fill_dev all_res genres keep_res
    bar_res set_bus set_dev str_eq itoa address pci_read32 pci_write32
bridge_goes_on w res count =
    let res' = bridge_res ∷ bridge_res ∷ bridge_res ∷ bridge_res ∷ bridge_res ∷ bridge_res ∷ res in
    let count' = count + 1 + 1 + 1 + 1 + 1 + 1 in
    (bridge_state 2147876864 res' count', refl, (2147876864, res', count', refl))

bridge_found :
    (s : Pci ℕ)
    → Scanned s
    → (t : Pci ℕ) × (found_dev (machine bridge_on_6) s (pci_at 6 0 0) ≡ some (value 0, t))
      × Scanned t
bridge_found s (w, res, count, e) =
    let (t, finds, q) = bridge_goes_on w res count in
    (t, ap (λ u. found_dev (machine bridge_on_6) u (pci_at 6 0 0)) e ∙ finds, q)

bridge_any_hw : (s : Pci ℕ) (w : ℕ) → Scanned s → Scanned (record s { hw = w })
bridge_any_hw s w (w0, res, count, e) = (w, res, count, ap (λ (u : Pci ℕ). record u { hw = w }) e)

check_bus_endless_example : check_bus (machine bridge_on_6) 4 6 (bridge_state 0 [] 0) ≡ none
unfolding address
check_bus_endless_example =
    check_bus_endless (machine bridge_on_6) bridge_on_6 (λ a w. refl) refl refl Scanned bridge_found
      bridge_any_hw 4 (bridge_state 0 [] 0) (0, [], 0, refl)

dev_name_test : dev_name (pci_at 12 31 5) ≡ some (codes "120.31.5")
unfolding dev_name
dev_name_test = refl

-- A network card of the vendor 0x8086 with the id 0x100e.
abbrev card_id : ℕ
card_id = 269385862

abbrev one_card : ℕ → ℕ
one_card a = card_id

genres-config_example :
    let res = bar_res card_id (2 ^ 32 - card_id) in
    ((genres (machine one_card) (pci_at 0 3 0) new_dev 2 0).0 ≡ value 0)
    × ((genres (machine one_card) (pci_at 0 3 0) new_dev 2 0).1
        ≡ (if res.value == 0 then new_dev else add_res res new_dev))
    × (res.size + card_id ≡ 2 ^ 32)
genres-config_example =
    genres-config (machine one_card) one_card (λ a w. refl) (pci_at 0 3 0) new_dev 2 0 (omega arith)
      (omega arith) (λ w. refl)
