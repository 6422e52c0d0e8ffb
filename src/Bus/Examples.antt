-- ===== src/Bus/Examples.antt =====
-- newland/src/bus.c with one bus and one kernel device.
use stardustos.Prelude.{List, [], codes, refl, some, str_eq, strcpy_into, value, ℕ, ◌∷◌, ◌≡◌}
use stardustos.Slist.{find}
use stardustos.Dev.{Device, Table, device_fromname}
use stardustos.Bus.{Bus, BusDev, bus_getdev, bus_getdevbyname, bus_regdev, serving, set_dname}

abbrev uart : List ℕ
uart = codes "uart"

abbrev serial : List ℕ
serial = codes "serial"

abbrev serial_device : Device ℕ
serial_device = record { dev = 512; size = 0; name = serial; opts = 1 }

abbrev devices : Table ℕ
devices = record { devices = serial_device ∷ []; dev_count = 1 }

abbrev no_dev : BusDev
no_dev = record {
  name = [];
  dname = [];
  addr = 0;
  res_list = [];
  res_count = 0;
  flags = 0;
  interrupt = 0;
}

abbrev pci : Bus
pci = record {
  name = codes "pci";
  type = [];
  dev_list = record no_dev { name = uart } ∷ [];
  dev_count = 1;
}

abbrev served : Bus
served = record pci { dev_list = record no_dev { name = uart; dname = serial } ∷ [] }

regdev_done : bus_regdev devices pci uart serial ≡ some (value 0, served)
unfolding bus_regdev bus_getdev bus_getdevbyname set_dname serving device_fromname find str_eq
    strcpy_into
regdev_done = refl
