-- ===== src/Modules.antt =====
-- newland/src/module.c: the kernel's modules. `W` is what the modules' entry functions act on, a
-- module is named by its id, and the log is left out.
use stardustos.Prelude.{
  Bool, List, Option, Ret, [], eexist, enoent, failed, false, if◌then◌else◌, is_failed, is_some,
  none, some, str_eq, suc, true, value, zero, ℕ, ◌>>=◌, ◌∷◌,
}
use stardustos.Slist.{find}
pub mod Loading
pub mod Examples

-- `modinfo_t`: `deps` is empty for NULL, and `loaded_next` is `mod_loaded.sle_next`.
pub record Module (W : Type 0) : Type 0 where
  pub id : List ℕ
  pub deps : List (List ℕ)
  pub init : W → Ret × W
  pub loaded_next : Option (List ℕ)

-- `modules_installed`, and the head of `modules_loaded`.
pub record Modules (W : Type 0) : Type 0 where
  pub installed : List (Module W)
  pub loaded : Option (List ℕ)
  pub world : W

abbrev pub has_id : {W : Type 0} → List ℕ → Module W → Bool
has_id id m = str_eq m.id id

-- A write to `mod_loaded.sle_next` of a module.
unfoldable pub set_next :
    {W : Type 0} → List ℕ → Option (List ℕ) → List (Module W) → List (Module W)
set_next id next [] = []
set_next id next (m ∷ ms) =
    if str_eq m.id id then record m { loaded_next = next } ∷ ms else m ∷ set_next id next ms

module _ {W : Type 0} where
  unfoldable pub module_fromid : Modules W → List ℕ → Option (Module W)
  module_fromid s id = find (has_id id) s.installed

  unfoldable pub module_install : Modules W → Module W → Ret × Modules W
  module_install s m =
      if is_some (module_fromid s m.id)
      then (failed eexist, s)
      else (value 0, record s { installed = record m { loaded_next = none } ∷ s.installed })

  -- `init()` and `SLIST_INSERT_HEAD(&modules_loaded, …)`
  unfoldable pub enter : Modules W → Module W → Ret × Modules W
  enter s m =
      let (r, w) = m.init s.world in
      if is_failed r then (r, record s { world = w }) else (
        r,
        record { installed = set_next m.id s.loaded s.installed; loaded = some m.id; world = w },
      )

  -- Dependencies may go in a circle: a call takes fuel, and `none` is the end of the fuel.
  unfoldable mutual
    pub module_init : ℕ → Modules W → List ℕ → Option (Ret × Modules W)
    module_init zero s id = none
    module_init (suc fuel) s id = elim (module_fromid s id) [
      | none ↦ some (failed enoent, s)
      | some m ↦ elim (is_some m.loaded_next) [
        | true ↦ some (value 0, s)
        | false ↦ init_deps fuel s m.deps >>= λ done. elim (is_failed done.0) [
          | true ↦ some done
          | false ↦ some (enter done.1 m)
        ]
      ]
    ]

    pub init_deps : ℕ → Modules W → List (List ℕ) → Option (Ret × Modules W)
    init_deps zero s deps = none
    init_deps (suc fuel) s [] = some (value 0, s)
    init_deps (suc fuel) s (dep ∷ deps) = module_init fuel s dep >>= λ done.
        elim (is_failed done.0) [ true ↦ some done | false ↦ init_deps fuel done.1 deps ]

  -- The two loops of `modules_init`.
  unfoldable pub install_all : Modules W → List (Module W) → Ret × Modules W
  install_all s [] = (value 0, s)
  install_all s (m ∷ ms) =
      let (r, s') = module_install s m in
      let rest = install_all s' ms in if is_failed r then (r, s') else rest

  unfoldable pub init_all : ℕ → Modules W → List (Module W) → Option (Ret × Modules W)
  init_all fuel s [] = some (value 0, s)
  init_all fuel s (m ∷ ms) = module_init fuel s m.id >>= λ done. elim (is_failed done.0) [
    | true ↦ some done
    | false ↦ init_all fuel done.1 ms
  ]

  unfoldable pub modules_init : ℕ → Modules W → List (Module W) → Option (Ret × Modules W)
  modules_init fuel s ms =
      let (r, s') = install_all s ms in
      if is_failed r then some (r, s') else init_all fuel s' s'.installed
