-- ===== src/Dev/Minors.antt =====
-- How the drivers of newland/src/dev/block.c and newland/src/dev/tty.c number their devices: the
-- minor number of a new device is the count of those before it, and the newest stands first.
use stardustos.Prelude.{
  ==_iff, ==_refl, Bool, List, [], arith, false, holds_below, holds_below-at, length, refl, some,
  true, value, ℕ, ◌*◌, ◌+◌, ◌<◌, ◌==◌, ◌∙◌, ◌∷◌, ◌≡◌, ◌≢◌,
}
use stardustos.Dev.{Device, Table, dev_minor, device_fromdev, mkdev, register_device}
use stardustos.Dev.Lookup.{register_device-lookup}

-- The major numbers of newland/include/newland/dev.h
abbrev pub devmaj_block : ℕ
devmaj_block = 1

abbrev pub devmaj_tty : ℕ
devmaj_tty = 2

mkdev_table : holds_below (λ ma. holds_below (λ mi. mkdev ma mi == ma * 256 + mi) 256) 4 ≡ true
unfolding mkdev holds_below
mkdev_table = refl

-- A minor number below 256 does not run into the major one.
pub mkdev-eq : (ma mi : ℕ) → ma < 4 → mi < 256 → mkdev ma mi ≡ ma * 256 + mi
mkdev-eq ma mi h k = (==_iff _ _).0 (
    holds_below-at (λ mi'. mkdev ma mi' == ma * 256 + mi') 256 k
      (holds_below-at (λ ma'. holds_below (λ mi'. mkdev ma' mi' == ma' * 256 + mi') 256) 4 h
        mkdev_table))

pub dev_minor-mkdev : (ma mi : ℕ) → ma < 4 → mi < 256 → dev_minor (mkdev ma mi) ≡ mi
unfolding dev_minor
dev_minor-mkdev ma mi h k = rw (mkdev-eq ma mi h k) (omega arith)

pub mkdev-ne :
    (ma mi mj : ℕ) → ma < 4 → mi < 256 → mj < 256 → mi ≢ mj → (mkdev ma mi == mkdev ma mj) ≡ false
mkdev-ne ma mi mj h k l ne = rw (mkdev-eq ma mi h k, mkdev-eq ma mj h l) (ground arith)

module _ {O : Type 0} where
  -- Each name of the list, newest first, is the device whose minor number is the count of those
  -- behind it.
  abbrev pub Numbered : Table O → ℕ → List (List ℕ) → Type 0
  Numbered t ma [] = Unit
  Numbered t ma (name ∷ names) =
      ((d : Device O) × (device_fromdev t (mkdev ma (length names)) ≡ some d) × (d.name ≡ name))
      × Numbered t ma names

  pub Numbered-ext :
      (t t' : Table O) (ma : ℕ) (names : List (List ℕ))
      → ((mi : ℕ)
          → mi < length names
          → device_fromdev t' (mkdev ma mi) ≡ device_fromdev t (mkdev ma mi))
      → Numbered t ma names
      → Numbered t' ma names
  Numbered-ext t t' ma [] same n = tt
  Numbered-ext t t' ma (name ∷ names) same n = (
    (n.0.0, same (length names) (omega arith) ∙ n.0.1, n.0.2),
    Numbered-ext t t' ma names (λ mi h. same mi (omega arith)) n.1,
  )

  -- Registering the next number of a major keeps the numbering.
  pub Numbered-register :
      (t : Table O) (alloc : Bool) (ma : ℕ) (name : List ℕ) (names : List (List ℕ)) (opts : O)
      (size n : ℕ) {t' : Table O}
      → ma < 4
      → length names < 256
      → Numbered t ma names
      → register_device t alloc (mkdev ma (length names)) name opts size ≡ some (value n, t')
      → Numbered t' ma (name ∷ names)
  Numbered-register t alloc ma name names opts size n {t'} h k num reg =
      let seen =
        (register_device-lookup t alloc (mkdev ma (length names)) name opts size n reg).0 in
      let new : Device O = record {
        dev = mkdev ma (length names);
        size = size;
        name = name;
        opts = opts;
      } in
      (
        (new, rw (seen (mkdev ma (length names)), ==_refl (mkdev ma (length names))), refl),
        Numbered-ext t t' ma names
            (λ mi lt.
              rw
                (seen (mkdev ma mi), mkdev-ne ma (length names) mi h k (omega arith) (omega arith)))
            num,
      )

  -- Where there is a device of the major, one has the minor number 0.
  pub Numbered-zero :
      (t : Table O) (ma : ℕ) (names : List (List ℕ))
      → 0 < length names
      → Numbered t ma names
      → (d : Device O) × (device_fromdev t (mkdev ma 0) ≡ some d)
  Numbered-zero t ma [] h n = elim h [ ]
  Numbered-zero t ma (name ∷ []) h n = (n.0.0, n.0.1)
  Numbered-zero t ma (name ∷ second ∷ names) h n =
      Numbered-zero t ma (second ∷ names) (omega arith) n.1
