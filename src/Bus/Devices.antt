-- ===== src/Bus/Devices.antt =====
-- The devices on a bus of newland/src/bus.c: which driver's device serves a name.
use stardustos.Prelude.{
  Bool-cases, List, Option, Option-cases, [], arith, eexist, failed, false, inl, inr, length, none,
  some, str_eq, str_eq_refl, strcpy_into, true, value, ℕ, ◌+◌, ◌<◌, ◌==◌, ◌∷◌, ◌≡◌,
}
use stardustos.Slist.Laws.{find-test}
use stardustos.Slist.{find, remove}
use stardustos.Dev.{Device, Table, device_fromname, has_name}
use stardustos.Bus.{
  Bus, BusDev, Buses, bus_adddev, bus_count, bus_fromname, bus_getdev, bus_getdevbyname, bus_regdev,
  bus_remdev, busdev_named, register_bus, serving, set_dname, unregister_bus,
}

module _ {O : Type 0} (t : Table O) where
  -- While nothing on the bus is served by a device, giving the device to one on the bus makes it
  -- the answer.
  serving-set_dname :
      (name dname : List ℕ) (ds : List BusDev) {dev : Device O} {d : BusDev}
      → serving t dname ds ≡ none
      → find (busdev_named name) ds ≡ some d
      → device_fromname t dname ≡ some dev
      → str_eq dev.name dname ≡ true
      → (length dname == 0) ≡ false
      → serving t dname (set_dname name dname ds) ≡ some dev
  unfolding serving set_dname find
  serving-set_dname name dname [] clear found known named long = absurd (cc)
  serving-set_dname name dname (d ∷ ds) {dev} {d = d'} clear found known named long =
      let rest = serving-set_dname name dname ds {dev = dev} {d = d'} in
      elim (Bool-cases (str_eq d.name name)) [
        | inl here ↦ ground (arith, here, known, named, long)
        | inr there ↦ ground (arith, there, clear, found, known, named, long, rest)
      ]

  device_fromname-name :
      (k : List ℕ) {dev : Device O} → device_fromname t k ≡ some dev → str_eq dev.name k ≡ true
  unfolding device_fromname
  device_fromname-name k {dev} e =
      let test = find-test (has_name k) t.devices {x = dev} in ground (arith, test)

  -- A device of the kernel that is registered for a device on the bus is found on the bus by its
  -- name, which is not empty, and cannot be registered on that bus again.
  pub bus_getdev-bus_regdev :
      (bus : Bus) (name dname : List ℕ) (dev : Device O) {n : ℕ} {bus' : Bus}
      → device_fromname t dname ≡ some dev
      → 0 < length dname
      → bus_regdev t bus name dname ≡ some (value n, bus')
      → (bus_getdev t bus' dname ≡ some dev)
        × ((other : List ℕ) → bus_regdev t bus' other dname ≡ some (failed eexist, bus'))
  unfolding bus_regdev bus_getdev bus_getdevbyname strcpy_into
  bus_getdev-bus_regdev bus name dname dev known long h =
      let clear : bus_getdev t bus dname ≡ none = ground (arith, h) in
      let named = device_fromname-name dname known in
      elim (Option-cases (bus_getdevbyname bus name)) [
        | inl absent ↦ absurd (ground (arith, h, clear, absent))
        | inr (d, found) ↦
            let served =
              serving-set_dname name dname bus.dev_list {dev = dev} {d = d} clear found known named
                (ground arith) in
            (
              ground (arith, h, clear, found, served),
              λ other. ground (arith, h, clear, found, served),
            )
      ]

-- Taking a device off a bus again gives the bus back.
pub bus_remdev-bus_adddev :
    (bus : Bus) (fresh : Option BusDev) (name : List ℕ) {n : ℕ} {bus' : Bus}
    → bus_adddev bus fresh name ≡ some (value n, bus')
    → bus_remdev bus' name ≡ (value 0, bus)
unfolding bus_adddev bus_remdev bus_getdevbyname strcpy_into find remove
bus_remdev-bus_adddev bus fresh name h = ground (arith, str_eq_refl name)

-- A second bus of the same name hides the first one until it is unregistered, which gives the table
-- back, whatever was in it.
pub unregister_bus-register_bus :
    (s : Buses) (fresh : Option Bus) (type : Option (List ℕ)) (name : List ℕ) {n : ℕ} {s' : Buses}
    → register_bus s fresh type name ≡ some (value n, s')
    → (unregister_bus s' name ≡ (value 0, s))
      × (bus_count s' ≡ bus_count s + 1)
      × ((k : List ℕ) → str_eq name k ≡ false → bus_fromname s' k ≡ bus_fromname s k)
unfolding register_bus unregister_bus bus_fromname bus_count strcpy_into find remove
unregister_bus-register_bus s fresh type name h = ground (arith, str_eq_refl name)
