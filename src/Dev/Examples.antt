-- ===== src/Dev/Examples.antt =====
-- The device table of newland/src/dev.c on small tables.
use stardustos.Prelude.{
  List, [], codes, if◌then◌else◌, none, refl, some, str_eq, strcpy_into, true, value, ℕ, ◌+◌, ◌==◌,
  ◌∷◌, ◌≡◌,
}
use stardustos.Slist.{find}
use stardustos.Dev.{
  Device, Table, device_count, device_fromdev, device_fromname, register_device, unregister_device,
}
use stardustos.Dev.Lookup.{register_device-lookup, unregister_device-lookup}
use stardustos.Dev.Invariant.{IsValid, register_device-IsValid}

abbrev sda : List ℕ
sda = codes "sda"

abbrev tty0 : List ℕ
tty0 = codes "tty0"

abbrev disk : Device ℕ
disk = record { dev = 256; size = 512; name = sda; opts = 7 }

abbrev terminal : Device ℕ
terminal = record { dev = 512; size = 0; name = tty0; opts = 8 }

abbrev one_device : Table ℕ
one_device = record { devices = disk ∷ []; dev_count = 1 }

abbrev two_devices : Table ℕ
two_devices = record { devices = terminal ∷ disk ∷ []; dev_count = 2 }

one_device-IsValid : IsValid one_device
unfolding find str_eq
one_device-IsValid = record { numbers = (refl, _); names = (refl, _); counted = refl }

registered : register_device one_device true 512 tty0 8 0 ≡ some (value 0, two_devices)
unfolding register_device device_fromname device_fromdev strcpy_into find str_eq
registered = refl

two_devices-IsValid : IsValid two_devices
two_devices-IsValid =
    register_device-IsValid one_device true 512 tty0 8 0 one_device-IsValid registered

register_device-lookup_example :
    ((d : ℕ)
      → device_fromdev two_devices d
        ≡ (if 512 == d then some terminal else device_fromdev one_device d))
    × ((k : List ℕ)
        → device_fromname two_devices k
          ≡ (if str_eq tty0 k then some terminal else device_fromname one_device k))
    × (device_count two_devices ≡ device_count one_device + 1)
register_device-lookup_example = register_device-lookup one_device true 512 tty0 8 0 0 registered

unregister_device-lookup_example :
    device_fromdev (unregister_device two_devices 512).1 256
    ≡ (if 512 == 256 then none else device_fromdev two_devices 256)
unfolding device_fromdev find
unregister_device-lookup_example =
    unregister_device-lookup two_devices 512 two_devices-IsValid refl 256
