-- ===== src/Modules/Examples.antt =====
-- newland/src/module.c with one module, whose entry function counts its calls.
use stardustos.Slist.{find}
use stardustos.Prelude.{List, [], codes, none, refl, some, str_eq, value, ℕ, ◌+◌, ◌∷◌, ◌≡◌}
use stardustos.Modules.{Module, Modules, enter, module_fromid, module_init}
use stardustos.Modules.Loading.{module_init_repeats}

abbrev pci : List ℕ
pci = codes "pci"

abbrev driver : Module ℕ
driver = record { id = pci; deps = []; init = λ w. (value 0, w + 1); loaded_next = none }

abbrev installed : Modules ℕ
installed = record { installed = driver ∷ []; loaded = none; world = 0 }

module_init_repeats_example :
    (s' : Modules ℕ) × (module_init 2 installed pci ≡ some (value 0, s'))
    × (s'.world ≡ 1)
    × (module_init 2 s' pci ≡ some (enter s' driver))
unfolding module_fromid find str_eq
module_init_repeats_example = module_init_repeats 0 installed pci driver 0 refl refl refl refl refl
