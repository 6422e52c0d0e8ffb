-- ===== src/Multiboot/Examples.antt =====
-- The boot loader's modules of newland/arch/x86/src/multiboot.c by name.
use stardustos.Prelude.{List, arith, codes, refl, some, ℕ, ◌≡◌}
use stardustos.Multiboot.{mod_index, mod_name}
use stardustos.Multiboot.Names.{mod_index-mod_name}

mod_index-mod_name_example : (name : List ℕ) × (mod_name 12 ≡ some name) × (mod_index name ≡ 21)
mod_index-mod_name_example = mod_index-mod_name 12 (omega arith)

first_name : mod_name 3 ≡ some (codes "mbmod30")
unfolding mod_name
first_name = refl
