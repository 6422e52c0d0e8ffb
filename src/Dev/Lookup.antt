-- ===== src/Dev/Lookup.antt =====
-- What the device table of newland/src/dev.c answers after a registration or a removal.
use stardustos.Prelude.{
  ==_iff, Bool, Bool-cases, Errno, List, Option-cases, arith, failed, false, if◌then◌else◌, inl,
  inr, is_some, length, name_max, none, some, str_eq, str_eq_iff, strcpy_into, subst, true, value,
  ℕ, ◌+◌, ◌<◌, ◌==◌, ◌∷◌, ◌≡◌,
}
use stardustos.Slist.{find, remove}
use stardustos.Slist.Laws.{find-remove_ne, find-remove_self}
use stardustos.Dev.{
  Device, Table, device_count, device_fromdev, device_fromname, register_device, unregister_device,
}
use stardustos.Dev.Invariant.{IsValid, unregister_present, without}

module _ {O : Type 0} where
  -- A registration that succeeds is seen by both lookups, under the new number and the new name
  -- only, and the count grows by one.
  pub register_device-lookup :
      (t : Table O) (alloc : Bool) (dev : ℕ) (name : List ℕ) (opts : O) (size n : ℕ) {t' : Table O}
      → register_device t alloc dev name opts size ≡ some (value n, t')
      → ((d : ℕ)
          → device_fromdev t' d ≡ (
              if dev == d
              then some (record { dev = dev; size = size; name = name; opts = opts })
              else device_fromdev t d))
        × ((k : List ℕ)
            → device_fromname t' k ≡ (
                if str_eq name k
                then some (record { dev = dev; size = size; name = name; opts = opts })
                else device_fromname t k))
        × (device_count t' ≡ device_count t + 1)
  unfolding register_device device_fromdev device_fromname strcpy_into find device_count
  register_device-lookup t alloc dev name opts size n h =
      (λ d. ground arith, λ k. ground (arith, str_eq_iff name k), ground arith)

  -- Any other outcome leaves the table as it was.
  pub register_device-failed :
      (t : Table O) (alloc : Bool) (dev : ℕ) (name : List ℕ) (opts : O) (size : ℕ) {e : Errno}
      {t' : Table O}
      → register_device t alloc dev name opts size ≡ some (failed e, t')
      → t' ≡ t
  unfolding register_device device_fromname device_fromdev strcpy_into
  register_device-failed t alloc dev name opts size h = ground arith

  -- A short name that is free, with a free number and memory at hand, is registered.
  pub register_device-succeeds :
      (t : Table O) (dev : ℕ) (name : List ℕ) (opts : O) (size : ℕ)
      → length name < name_max
      → device_fromname t name ≡ none
      → device_fromdev t dev ≡ none
      → (t' : Table O) × (register_device t true dev name opts size ≡ some (value 0, t'))
  unfolding register_device strcpy_into
  register_device-succeeds t dev name opts size short fresh free = (
    record {
      devices = record { dev = dev; size = size; name = name; opts = opts } ∷ t.devices;
      dev_count = t.dev_count + 1;
    },
    ground arith,
  )

  -- A name of NAME_MAX bytes passes the guard, and its NUL is written past `device->name`.
  pub register_device_overrun :
      (t : Table O) (dev : ℕ) (name : List ℕ) (opts : O) (size : ℕ)
      → length name ≡ name_max
      → device_fromname t name ≡ none
      → device_fromdev t dev ≡ none
      → register_device t true dev name opts size ≡ none
  unfolding register_device strcpy_into
  register_device_overrun t dev name opts size long fresh free = ground arith

  pub gone : (t : Table O) (dev : ℕ) → IsValid t → device_fromdev (without t dev) dev ≡ none
  unfolding device_fromdev
  gone t dev v = find-remove_self (λ (d : Device O). d.dev) ◌==◌ ==_iff dev t.devices v.numbers

  pub kept :
      (t : Table O) (dev d : ℕ)
      → (dev == d) ≡ false
      → device_fromdev (without t dev) d ≡ device_fromdev t d
  unfolding device_fromdev
  kept t dev d other =
      find-remove_ne (λ (d : Device O). d.dev) ◌==◌ ==_iff d dev t.devices (ground arith)

  -- In a valid table a number that is removed is gone, and all other numbers answer as before.
  pub unregister_device-lookup :
      (t : Table O) (dev : ℕ)
      → IsValid t
      → is_some (device_fromdev t dev) ≡ true
      → (d : ℕ)
      → device_fromdev (unregister_device t dev).1 d
        ≡ (if dev == d then none else device_fromdev t d)
  unregister_device-lookup t dev v known d = elim (Option-cases (device_fromdev t dev)) [
    | inl e ↦ ground arith
    | inr (x, e) ↦ rw (unregister_present t dev e) (elim (Bool-cases (dev == d)) [
      | inl same ↦ rw same (
          subst (λ k. device_fromdev (without t dev) k ≡ none) ((==_iff dev d).0 same)
            (gone t dev v))
      | inr other ↦ rw other (kept t dev d other)
    ])
  ]

  -- Registering a device with success and unregistering its number gives the table back.
  pub unregister_device-register :
      (t : Table O) (alloc : Bool) (dev : ℕ) (name : List ℕ) (opts : O) (size n : ℕ) {t' : Table O}
      → register_device t alloc dev name opts size ≡ some (value n, t')
      → unregister_device t' dev ≡ (value 0, t)
  unfolding register_device unregister_device device_fromdev device_fromname strcpy_into find remove
  unregister_device-register t alloc dev name opts size n h = ground (arith)
