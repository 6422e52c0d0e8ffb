-- ===== src/Pci.antt =====
-- newland/arch/x86/modules/bus/pci.c and newland/arch/x86/include/newland/arch/pci.h: the PCI
-- bus. `W` is the hardware behind the ports and the memory that `kmalloc` hands out, and a fault
-- is `none`.
use stardustos.Prelude.{
  Bool, Option, Ret, bit_and, bit_or, enomem, failed, if◌then◌else◌, not, value, ℕ, ◌%◌, ◌*◌, ◌+◌,
  ◌-◌, ◌/◌, ◌==◌, ◌^◌, ◌||◌, ◌∷◌,
}
use stardustos.Bus.{BusDev, BusDevRes}
pub mod Names
pub mod Scan
pub mod Examples

-- PCI_ADDR and PCI_VAL
abbrev pub pci_addr : ℕ
pci_addr = 3320

abbrev pub pci_val : ℕ
pci_val = 3324

-- newland/arch/io.h, and what `kmalloc` gives for a device and for a resource.
pub record Machine (W : Type 0) : Type 0 where
  pub outb : ℕ → ℕ → W → W
  pub outw : ℕ → ℕ → W → W
  pub outl : ℕ → ℕ → W → W
  pub inb : ℕ → W → ℕ × W
  pub inw : ℕ → W → ℕ × W
  pub inl : ℕ → W → ℕ × W
  pub alloc_dev : W → Option BusDev × W
  pub alloc_res : W → Bool × W

-- `pci_dev_t`
pub record PciDev : Type 0 where
  pub bus : ℕ
  pub slot : ℕ
  pub func : ℕ

-- `(dev->bus << 16) | (dev->slot << 11) | (dev->func << 8)`
abbrev pub location : PciDev → ℕ
location d = bit_or (bit_or (d.bus * 2 ^ 16) (d.slot * 2 ^ 11)) (d.func * 2 ^ 8)

-- What goes to PCI_ADDR: the register is not part of it.
unfoldable pub address : PciDev → ℕ
address d = bit_or (location d) (2 ^ 31)

module _ {W : Type 0} (m : Machine W) where
  unfoldable pub pci_read32 : PciDev → ℕ → W → ℕ × W
  unfolding address
  pci_read32 d reg w = m.inl pci_val (m.outl pci_addr (address d) w)

  unfoldable pub pci_read16 : PciDev → ℕ → W → ℕ × W
  pci_read16 d reg w = m.inw (pci_val + bit_and reg 3) (m.outl pci_addr (address d) w)

  unfoldable pub pci_read8 : PciDev → ℕ → W → ℕ × W
  pci_read8 d reg w = m.inb (pci_val + bit_and reg 3) (m.outl pci_addr (address d) w)

  unfoldable pub pci_write32 : PciDev → ℕ → ℕ → W → W
  pci_write32 d reg v w = m.outl pci_val v (m.outl pci_addr (address d) w)

  unfoldable pub pci_write16 : PciDev → ℕ → ℕ → W → W
  pci_write16 d reg v w = m.outw (pci_val + bit_and reg 3) v (m.outl pci_addr (address d) w)

  unfoldable pub pci_write8 : PciDev → ℕ → ℕ → W → W
  pci_write8 d reg v w = m.outb (pci_val + bit_and reg 3) v (m.outl pci_addr (address d) w)

  -- The macros of pci.h: a part of one register, from a bit on.
  abbrev pub field : ℕ → ℕ → ℕ → PciDev → W → ℕ × W
  field reg shift mask d w = let r = pci_read32 d reg w in (bit_and (r.0 / 2 ^ shift) mask, r.1)

  unfoldable pub pcidev_getdevice : PciDev → W → ℕ × W
  unfolding pci_read32
  pcidev_getdevice d w = let r = pci_read32 d 0 w in (r.0 / 2 ^ 16, r.1)

  unfoldable pub pcidev_getvendor : PciDev → W → ℕ × W
  unfolding pci_read32
  pcidev_getvendor d w = let r = pci_read32 d 0 w in (bit_and r.0 65535, r.1)

  unfoldable pub pcidev_gethdrtype : PciDev → W → ℕ × W
  unfolding pci_read32
  pcidev_gethdrtype d w = field 12 16 255 d w

  unfoldable pub pcidev_get2ndbus : PciDev → W → ℕ × W
  unfolding pci_read32
  pcidev_get2ndbus d w = field 24 24 255 d w

  unfoldable pub pcidev_getintpin : PciDev → W → ℕ × W
  unfolding pci_read32
  pcidev_getintpin d w = field 60 24 255 d w

  unfoldable pub pcidev_getintline : PciDev → W → ℕ × W
  unfolding pci_read32
  pcidev_getintline d w = field 60 16 255 d w

-- BUSDEVRES_MEM and BUSDEVRES_IO
abbrev pub busdevres_io : ℕ
busdevres_io = 1

abbrev pub busdevres_mem : ℕ
busdevres_mem = 2

-- The resource that a base address register stands for, with its size.
unfoldable pub bar_res : ℕ → ℕ → BusDevRes
bar_res barval barsize =
    if not (bit_and barval 4 == 0)
    then record { value = bit_and barval 4294967280; size = barsize; type = busdevres_mem }
    else if not (bit_and barval 1 == 0)
    then record {
      value = bit_and (bit_and barval 4294967292) 65535;
      size = barsize;
      type = busdevres_io;
    }
    else record { value = bit_and barval 4294967280; size = barsize; type = busdevres_mem }

-- `SLIST_INSERT_HEAD(&dev->res_list, …); dev->res_count++;`
abbrev pub add_res : BusDevRes → BusDev → BusDev
add_res res d = record d { res_list = res ∷ d.res_list; res_count = d.res_count + 1 }

module _ {W : Type 0} (m : Machine W) where
  -- From the register's value, and what it reads after all ones were written.
  unfoldable pub keep_res : ℕ → ℕ → BusDev → W → Ret × BusDev × W
  unfolding bar_res
  keep_res barval mask dev w =
      let barsize = (2 ^ 32 - mask) % 2 ^ 32 in
      let res = bar_res barval barsize in
      let room = m.alloc_res w in
      if mask == 0 || barval == 0
      then (value 0, dev, w)
      else if barsize == 0
      then (value 0, dev, w)
      else if not room.0
      then (failed enomem, dev, room.1)
      else if res.value == 0 || res.size == 0
      then (value 0, dev, room.1)
      else (value 0, add_res res dev, room.1)

  unfoldable pub genres : PciDev → BusDev → ℕ → W → Ret × BusDev × W
  unfolding pci_read32 pci_write32 keep_res
  genres addr dev index w =
      let barindex = ((index * 4) % 2 ^ 8 + 16) % 2 ^ 8 in
      let first = pci_read32 m addr barindex w in
      let second = pci_read32 m addr barindex (pci_write32 m addr barindex (2 ^ 32 - 1) first.1) in
      keep_res first.0 second.0 dev second.1
