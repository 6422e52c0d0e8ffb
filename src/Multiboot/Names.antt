-- ===== src/Multiboot/Names.antt =====
-- The number that mb_read of newland/arch/x86/src/multiboot.c reads back from the name that
-- mbi_modules_init gave.
use stardustos.Prelude.{
  ==_iff, Bool, List, Option, false, holds_below, holds_below-at, if◌then◌else◌, ltb, none, refl,
  some, true, ℕ, ◌%◌, ◌*◌, ◌+◌, ◌/◌, ◌<◌, ◌==◌, ◌≡◌,
}
use stardustos.Multiboot.{mod_index, mod_name}

-- With two digits the name holds the tens first, and the tens are read as the units.
abbrev pub read_back : ℕ → ℕ
read_back i = if ltb i 10 then i else i % 10 * 10 + i / 10

abbrev names : Option (List ℕ) → ℕ → Bool
names none k = false
names (some name) k = mod_index name == k

all_read_back : holds_below (λ i. names (mod_name i) (read_back i)) 100 ≡ true
unfolding holds_below mod_index mod_name
all_read_back = refl

names-some :
    (o : Option (List ℕ)) (k : ℕ)
    → names o k ≡ true
    → (name : List ℕ) × (o ≡ some name) × (mod_index name ≡ k)
names-some none k h = cc
names-some (some name) k h = (name, refl, (==_iff (mod_index name) k).0 h)

-- A module under ten is read back as itself; from ten on the two digits change places.
pub mod_index-mod_name :
    (i : ℕ) → i < 100 → (name : List ℕ) × (mod_name i ≡ some name) × (mod_index name ≡ read_back i)
mod_index-mod_name i small =
    names-some (mod_name i) (read_back i)
      (holds_below-at (λ k. names (mod_name k) (read_back k)) 100 small all_read_back)
