-- ===== src/Bus.antt =====
-- newland/src/bus.c: buses, the devices on a bus, and the drivers' devices that serve them. A call
-- with a `bus_t*` is a function on that bus; memory that is freed, and the log, are left out.
use stardustos.Prelude.{
  value, Bool, List, Option, Ret, [], eexist, enametoolong, enoent, enomem, failed, false,
  if◌then◌else◌, is_some, length, ltb, name_max, none, not, some, str_eq, strcpy_into, ℕ, ◌+◌, ◌-◌,
  ◌==◌, ◌>>=◌, ◌||◌, ◌∷◌,
}
use stardustos.Slist.{find, get_from, remove}
use stardustos.Dev.{Device, Table, device_fromname}
pub mod Devices
pub mod Examples

-- `bus_dev_res_t`, with the type BUSDEVRES_IO (1) or BUSDEVRES_MEM (2).
pub record BusDevRes : Type 0 where
  pub value : ℕ
  pub size : ℕ
  pub type : ℕ

-- `bus_dev_t`
pub record BusDev : Type 0 where
  pub name : List ℕ
  pub dname : List ℕ
  pub addr : ℕ
  pub res_list : List BusDevRes
  pub res_count : ℕ
  pub flags : ℕ
  pub interrupt : ℕ

-- `bus_t`
pub record Bus : Type 0 where
  pub name : List ℕ
  pub type : List ℕ
  pub dev_list : List BusDev
  pub dev_count : ℕ

-- `buses` and `buses_count`
pub record Buses : Type 0 where
  pub buses : List Bus
  pub buses_count : ℕ

abbrev pub bus_named : List ℕ → Bus → Bool
bus_named name b = str_eq b.name name

abbrev pub busdev_named : List ℕ → BusDev → Bool
busdev_named name d = str_eq d.name name

unfoldable pub bus_count : Buses → ℕ
bus_count s = s.buses_count

unfoldable pub bus_get : Buses → ℕ → Option Bus
bus_get s i = get_from s.buses 0 i

unfoldable pub bus_fromname : Buses → List ℕ → Option Bus
bus_fromname s name = find (bus_named name) s.buses

unfoldable pub bus_getdevbyname : Bus → List ℕ → Option BusDev
bus_getdevbyname bus name = find (busdev_named name) bus.dev_list

-- `strcpy` into, or `memset` of, the `dname` of the first device with a name.
unfoldable pub set_dname : List ℕ → List ℕ → List BusDev → List BusDev
set_dname name dname [] = []
set_dname name dname (d ∷ ds) =
    if str_eq d.name name then record d { dname = dname } ∷ ds else d ∷ set_dname name dname ds

module _ {O : Type 0} (t : Table O) where
  -- The loop of `bus_getdev`.
  unfoldable pub serving : List ℕ → List BusDev → Option (Device O)
  serving name [] = none
  serving name (d ∷ ds) =
      let rest = serving name ds in
      if length d.dname == 0 then rest else (elim (device_fromname t d.dname) [
        | none ↦ rest
        | some dev ↦ if str_eq dev.name name then some dev else rest
      ])

  unfoldable pub bus_getdev : Bus → List ℕ → Option (Device O)
  unfolding serving
  bus_getdev bus name = serving name bus.dev_list

  unfoldable pub bus_regdev : Bus → List ℕ → List ℕ → Option (Ret × Bus)
  bus_regdev bus name dname =
      if is_some (bus_getdev bus dname)
      then some (failed eexist, bus)
      else if is_some (bus_getdevbyname bus name)
      then (do
        dname' ← strcpy_into name_max dname
        some (value 0, record bus { dev_list = set_dname name dname' bus.dev_list }))
      else some (failed enoent, bus)

  unfoldable pub bus_unregdev : Bus → List ℕ → List ℕ → Ret × Bus
  bus_unregdev bus name dname =
      if not (is_some (bus_getdev bus dname))
      then (failed enoent, bus)
      else if is_some (bus_getdevbyname bus name)
      then (value 0, record bus { dev_list = set_dname name [] bus.dev_list })
      else (failed enoent, bus)

-- `fresh` is what `kmalloc` gives, with whatever its bytes hold: `dname` keeps them.
unfoldable pub bus_adddev : Bus → Option BusDev → List ℕ → Option (Ret × Bus)
bus_adddev bus fresh name =
    if is_some (bus_getdevbyname bus name) then some (failed eexist, bus) else elim fresh [
      | none ↦ some (failed enomem, bus)
      | some junk ↦ do
        name' ← strcpy_into name_max name
        some (
          value 0,
          record bus {
            dev_list = record junk { name = name' } ∷ bus.dev_list;
            dev_count = bus.dev_count + 1;
          },
        )
    ]

unfoldable pub bus_remdev : Bus → List ℕ → Ret × Bus
bus_remdev bus name =
    if is_some (bus_getdevbyname bus name)
    then (
      value 0,
      record bus {
        dev_list = remove (busdev_named name) bus.dev_list;
        dev_count = bus.dev_count - 1;
      },
    )
    else (failed enoent, bus)

-- `type` is `none` for NULL. The head of the new bus's `dev_list` is not set: it keeps what
-- `kmalloc` gave.
unfoldable pub register_bus : Buses → Option Bus → Option (List ℕ) → List ℕ → Option (Ret × Buses)
register_bus s fresh type name =
    let long : Bool = elim type [ none ↦ false | some t ↦ ltb name_max (length t) ] in
    if long || ltb name_max (length name) then some (failed enametoolong, s) else elim fresh [
      | none ↦ some (failed enomem, s)
      | some junk ↦ do
        let stored : Option (List ℕ) = elim type [
          | none ↦ some junk.type
          | some t ↦ strcpy_into name_max t
        ]
        type' ← stored
        name' ← strcpy_into name_max name
        some (
          value 0,
          record {
            buses = record junk { type = type'; name = name'; dev_count = 0 } ∷ s.buses;
            buses_count = s.buses_count + 1;
          },
        )
    ]

unfoldable pub unregister_bus : Buses → List ℕ → Ret × Buses
unregister_bus s name =
    if is_some (bus_fromname s name)
    then (
      value 0,
      record { buses = remove (bus_named name) s.buses; buses_count = s.buses_count - 1 },
    )
    else (failed enoent, s)
