-- ===== src/Tty.antt =====
-- newland/src/dev/tty.c: terminals, which are devices of the major number DEVMAJ_TTY.
-- `B` is `tty_opts_t`, the driver's handlers, and `O` is `fs_node_opts_t`.
use stardustos.Dev.Minors.{devmaj_tty}
use stardustos.Slist.{find, get_from, indexof_from, remove}
use stardustos.Prelude.{
  Bool, List, Option, Ret, eexist, enodev, enomem, failed, if◌then◌else◌, is_some, name_max, none,
  size_minus_one, some, str_eq, strcpy_into, value, ℕ, ◌+◌, ◌-◌, ◌>>=◌, ◌||◌, ◌∷◌,
}
use stardustos.Dev.{Table, device_fromname, mkdev, register_device, unregister_device}
pub mod Numbers
pub mod Examples

-- `tty_t`
pub record Tty (B : Type 0) : Type 0 where
  pub name : List ℕ
  pub opts : B

-- The device table beside `ttys` and `tty_cnt`.
pub record Ttys (B O : Type 0) : Type 0 where
  pub devs : Table O
  pub ttys : List (Tty B)
  pub tty_cnt : ℕ

abbrev pub titled : {B : Type 0} → List ℕ → Tty B → Bool
titled name t = str_eq t.name name

module _ {B O : Type 0} where
  unfoldable pub tty_count : Ttys B O → ℕ
  tty_count s = s.tty_cnt

  unfoldable pub tty_indexof : Ttys B O → Tty B → ℕ
  tty_indexof s t = elim (indexof_from (titled t.name) s.ttys 0) [
    | none ↦ size_minus_one
    | some i ↦ i
  ]

  unfoldable pub tty_get : Ttys B O → ℕ → Option (Tty B)
  tty_get s i = get_from s.ttys 0 i

  unfoldable pub tty_fromname : Ttys B O → List ℕ → Option (Tty B)
  tty_fromname s name = find (titled name) s.ttys

  -- `fsopts` is `tty_fsopts`; `alloc` and `alloc_dev` are the two calls of `kmalloc`.
  unfoldable pub register_tty : O → Ttys B O → Bool → Bool → List ℕ → B → Option (Ret × Ttys B O)
  register_tty fsopts s alloc alloc_dev name opts =
      if is_some (tty_fromname s name) || is_some (device_fromname s.devs name)
      then some (failed eexist, s)
      else if alloc
      then (do
        name' ← strcpy_into name_max name
        (r, devs') ← register_device s.devs alloc_dev (mkdev devmaj_tty s.tty_cnt) name fsopts 0
        let t : Tty B = record { name = name'; opts = opts }
        elim r [
          | failed e ↦ some (failed e, record s { devs = devs' })
          | value _ ↦
              some (value 0, record { devs = devs'; ttys = t ∷ s.ttys; tty_cnt = s.tty_cnt + 1 })
        ])
      else some (failed enomem, s)

  unfoldable pub unregister_tty : Ttys B O → List ℕ → Ret × Ttys B O
  unregister_tty s name = elim (tty_fromname s name) [
    | none ↦ (failed enodev, s)
    | some t ↦
        if is_some (device_fromname s.devs name)
        then (let (r, devs') = unregister_device s.devs (mkdev devmaj_tty (tty_indexof s t)) in
            elim r [
              | failed e ↦ (failed e, record s { devs = devs' })
              | value _ ↦ (
                value 0,
                record {
                  devs = devs';
                  ttys = remove (titled name) s.ttys;
                  tty_cnt = s.tty_cnt - 1;
                },
              )
            ])
        else (failed enodev, s)
  ]
