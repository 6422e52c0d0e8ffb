-- ===== src/Dev/Invariant.antt =====
-- The invariant of the device table of newland/src/dev.c: numbers, names and the count.
use stardustos.Prelude.{
  Bool, List, Option-cases, Ret, arith, enodev, failed, inl, inr, length, none, some, str_eq,
  strcpy_into, value, ℕ, ◌-◌, ◌==◌, ◌≡◌,
}
use stardustos.Slist.{remove}
use stardustos.Slist.Laws.{Unique, Unique-remove, length-remove}
use stardustos.Dev.{
  Device, Table, device_fromdev, device_fromname, has_dev, register_device, unregister_device,
}

module _ {O : Type 0} where
  -- No two devices share a number or a name, and `dev_count` is the length of the list.
  pub record IsValid (t : Table O) : Type 0 where
    pub numbers : Unique (λ (d : Device O). d.dev) ◌==◌ t.devices
    pub names : Unique (λ (d : Device O). d.name) str_eq t.devices
    pub counted : t.dev_count ≡ length t.devices

  -- Every outcome of a registration leaves the numbers and the names of a valid table unique and
  -- its count right.
  pub register_device-IsValid :
      (t : Table O) (alloc : Bool) (dev : ℕ) (name : List ℕ) (opts : O) (size : ℕ) {r : Ret}
      {t' : Table O}
      → IsValid t
      → register_device t alloc dev name opts size ≡ some (r, t')
      → IsValid t'
  unfolding register_device device_fromname device_fromdev strcpy_into
  register_device-IsValid t alloc dev name opts size v h = ground arith

  pub unregister_absent :
      (t : Table O) (dev : ℕ)
      → device_fromdev t dev ≡ none
      → unregister_device t dev ≡ (failed enodev, t)
  unfolding unregister_device
  unregister_absent t dev e = ground arith

  -- The table without the device that has the number.
  abbrev pub without : Table O → ℕ → Table O
  without t dev = record { devices = remove (has_dev dev) t.devices; dev_count = t.dev_count - 1 }

  pub unregister_present :
      (t : Table O) (dev : ℕ) {d : Device O}
      → device_fromdev t dev ≡ some d
      → unregister_device t dev ≡ (value 0, without t dev)
  unfolding unregister_device
  unregister_present t dev e = ground arith

  pub without-IsValid :
      (t : Table O) (dev : ℕ) {d : Device O}
      → IsValid t
      → device_fromdev t dev ≡ some d
      → IsValid (without t dev)
  unfolding device_fromdev
  without-IsValid t dev v e = record {
    numbers = Unique-remove (λ (d : Device O). d.dev) ◌==◌ _ t.devices v.numbers;
    names = Unique-remove (λ (d : Device O). d.name) str_eq _ t.devices v.names;
    counted = omega (arith, length-remove (has_dev dev) t.devices (rw e), v.counted);
  }

  -- Every outcome of a removal leaves the numbers and the names of a valid table unique and its
  -- count right.
  pub unregister_device-IsValid :
      (t : Table O) (dev : ℕ) → IsValid t → IsValid (unregister_device t dev).1
  unregister_device-IsValid t dev v = elim (Option-cases (device_fromdev t dev)) [
    | inl e ↦ rw (unregister_absent t dev e) v
    | inr (d, e) ↦ rw (unregister_present t dev e) (without-IsValid t dev v e)
  ]
