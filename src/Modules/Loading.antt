-- ===== src/Modules/Loading.antt =====
-- Which modules newland/src/module.c initialises again.
use stardustos.Slist.Laws.{find-test}
use stardustos.Slist.{find}
use stardustos.Prelude.{
  List, Option, [], ap, arith, is_some, none, refl, some, str_eq→eq, suc, true, value, ℕ, ◌∙◌, ◌∷◌,
  ◌≡◌,
}
use stardustos.Modules.{Module, Modules, enter, has_id, module_fromid, module_init, set_next}

module _ {W : Type 0} where
  find-set_next :
      (id : List ℕ) (next : Option (List ℕ)) (ms : List (Module W)) {m : Module W}
      → find (has_id id) ms ≡ some m
      → find (has_id id) (set_next id next ms) ≡ some (record m { loaded_next = next })
  unfolding find set_next
  find-set_next id next [] e = cc
  find-set_next id next (x ∷ xs) {m} e = ground (arith, e, find-set_next id next xs {m = m})

  module_init-enter :
      (fuel : ℕ) (s : Modules W) (id : List ℕ) (m : Module W)
      → module_fromid s id ≡ some m
      → m.deps ≡ []
      → m.loaded_next ≡ none
      → module_init (suc (suc fuel)) s id ≡ some (enter s m)
  unfolding module_init
  module_init-enter fuel s id m found no_deps fresh = ground (arith, found, no_deps, fresh)

  -- The state behind an entry function that succeeds.
  abbrev entered : Modules W → Module W → Modules W
  entered s m = record {
    installed = set_next m.id s.loaded s.installed;
    loaded = some m.id;
    world = (m.init s.world).1;
  }

  enter-value :
      (s : Modules W) (m : Module W) (n : ℕ)
      → (m.init s.world).0 ≡ value n
      → enter s m ≡ (value n, entered s m)
  unfolding enter
  enter-value s m n ok = rw ok refl

  entered-module_fromid :
      (s : Modules W) (id : List ℕ) (m : Module W)
      → module_fromid s id ≡ some m
      → module_fromid (entered s m) id ≡ some (record m { loaded_next = s.loaded })
  unfolding module_fromid
  entered-module_fromid s id m found =
      let same : m.id ≡ id = str_eq→eq m.id id (find-test (has_id id) s.installed found) in
      ap (λ i. find (has_id id) (set_next i s.loaded s.installed)) same
      ∙ find-set_next id s.loaded s.installed found

  -- The module that is loaded first, without dependencies, is marked by a NULL link, as one that is
  -- not loaded: a second call runs its entry function again.
  pub module_init_repeats :
      (fuel : ℕ) (s : Modules W) (id : List ℕ) (m : Module W) (n : ℕ)
      → module_fromid s id ≡ some m
      → m.deps ≡ []
      → m.loaded_next ≡ none
      → s.loaded ≡ none
      → (m.init s.world).0 ≡ value n
      → (s' : Modules W) × (module_init (suc (suc fuel)) s id ≡ some (value n, s'))
        × (s'.world ≡ (m.init s.world).1)
        × (module_init (suc (suc fuel)) s' id ≡ some (enter s' (record m { loaded_next = none })))
  module_init_repeats fuel s id m n found no_deps fresh first ok =
      let seen = entered-module_fromid s id m found in
      (
        entered s m,
        module_init-enter fuel s id m found no_deps fresh ∙ ap some (enter-value s m n ok),
        refl,
        module_init-enter fuel (entered s m) id (record m { loaded_next = none })
            (seen ∙ ap (λ l. some (record m { loaded_next = l })) first) no_deps refl,
      )

  module_init_loaded :
      (fuel : ℕ) (s : Modules W) (id : List ℕ) (m : Module W)
      → module_fromid s id ≡ some m
      → is_some m.loaded_next ≡ true
      → module_init (suc (suc fuel)) s id ≡ some (value 0, s)
  unfolding module_init
  module_init_loaded fuel s id m found loaded = ground (arith, found, loaded)

  -- Any other module that is loaded is not entered again.
  pub module_init_once :
      (fuel : ℕ) (s : Modules W) (id top : List ℕ) (m : Module W) (n : ℕ)
      → module_fromid s id ≡ some m
      → m.deps ≡ []
      → m.loaded_next ≡ none
      → s.loaded ≡ some top
      → (m.init s.world).0 ≡ value n
      → (s' : Modules W) × (module_init (suc (suc fuel)) s id ≡ some (value n, s'))
        × (module_init (suc (suc fuel)) s' id ≡ some (value 0, s'))
  module_init_once fuel s id top m n found no_deps fresh first ok =
      let seen = entered-module_fromid s id m found in
      (
        entered s m,
        module_init-enter fuel s id m found no_deps fresh ∙ ap some (enter-value s m n ok),
        module_init_loaded fuel (entered s m) id (record m { loaded_next = s.loaded }) seen
            (rw first refl),
      )
