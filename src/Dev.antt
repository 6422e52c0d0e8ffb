-- ===== src/Dev.antt =====
-- newland/src/dev.c: the kernel's table of devices, found by device number or by name.
-- `O` is `fs_node_opts_t`, the handlers that a driver gives, which the table only stores.
use stardustos.Prelude.{
  Bool, List, Option, Ret, bit_or, eexist, enametoolong, enodev, enomem, failed, if◌then◌else◌,
  is_some, length, ltb, name_max, none, size_minus_one, some, str_eq, strcpy_into, value, ℕ, ◌%◌,
  ◌*◌, ◌+◌, ◌-◌, ◌==◌, ◌>>=◌, ◌^◌, ◌||◌, ◌∷◌,
}
use stardustos.Slist.{find, get_from, indexof_from, remove}
pub mod Invariant
pub mod Lookup
pub mod Minors
pub mod Examples

-- `MKDEV` and `DEV_MINOR` (newland/include/newland/dev.h)
unfoldable pub mkdev : ℕ → ℕ → ℕ
mkdev ma mi = bit_or (ma * 2 ^ 8) mi

unfoldable pub dev_minor : ℕ → ℕ
dev_minor dev = dev % 2 ^ 8

-- `device_t`, less the list links
pub record Device (O : Type 0) : Type 0 where
  pub dev : ℕ
  pub size : ℕ
  pub name : List ℕ
  pub opts : O

-- The `devices` list and `dev_count`.
pub record Table (O : Type 0) : Type 0 where
  pub devices : List (Device O)
  pub dev_count : ℕ

module _ {O : Type 0} where
  abbrev pub has_dev : ℕ → Device O → Bool
  has_dev d device = device.dev == d

  abbrev pub has_name : List ℕ → Device O → Bool
  has_name name device = str_eq device.name name

  unfoldable pub device_count : Table O → ℕ
  device_count t = t.dev_count

  -- `size_t`, so that the -1 of an absent device is the largest one
  unfoldable pub device_indexof : Table O → Device O → ℕ
  device_indexof t device = elim (indexof_from (has_name device.name) t.devices 0) [
    | none ↦ size_minus_one
    | some i ↦ i
  ]

  unfoldable pub device_get : Table O → ℕ → Option (Device O)
  device_get t i = get_from t.devices 0 i

  unfoldable pub device_fromdev : Table O → ℕ → Option (Device O)
  device_fromdev t dev = find (has_dev dev) t.devices

  unfoldable pub device_fromname : Table O → List ℕ → Option (Device O)
  device_fromname t name =
      if ltb name_max (length name) then none else find (has_name name) t.devices

  -- `alloc` says whether `kmalloc` finds memory.
  unfoldable pub register_device : Table O → Bool → ℕ → List ℕ → O → ℕ → Option (Ret × Table O)
  register_device t alloc dev name opts size =
      if ltb name_max (length name)
      then some (failed enametoolong, t)
      else if is_some (device_fromname t name) || is_some (device_fromdev t dev)
      then some (failed eexist, t)
      else if alloc
      then (do
        name' ← strcpy_into name_max name
        let device : Device O = record { dev = dev; size = size; name = name'; opts = opts }
        some (value 0, record { devices = device ∷ t.devices; dev_count = t.dev_count + 1 }))
      else some (failed enomem, t)

  unfoldable pub unregister_device : Table O → ℕ → Ret × Table O
  unregister_device t dev = elim (device_fromdev t dev) [
    | none ↦ (failed enodev, t)
    | some _ ↦
        (value 0, record { devices = remove (has_dev dev) t.devices; dev_count = t.dev_count - 1 })
  ]
