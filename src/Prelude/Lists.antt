-- ===== src/Prelude/Lists.antt =====
-- Lists measured and indexed by native numbers, under the library's names.
use Prim.Native.Nat.{ℕ, zero, suc, ◌+◌, ◌≤◌, ◌<◌}
use mathlib.Core.Path.{◌≡◌, refl, ap}
use mathlib.Core.Logic.{◌≢◌}
use mathlib.Core.List.{List, [], ◌∷◌, ◌++◌}
use mathlib.Core.Option.{Option, none, some}
use native.Mathlib.Omega.{arith}

module _ {ℓ} {A : Type ℓ} where
  abbrev pub length : List A → ℕ
  length [] = 0
  length (_ ∷ xs) = suc (length xs)

  abbrev pub get_elem? : List A → ℕ → Option A
  get_elem? [] _ = none
  get_elem? (x ∷ _) zero = some x
  get_elem? (_ ∷ xs) (suc i) = get_elem? xs i

  abbrev pub get_or : List A → ℕ → A → A
  get_or [] _ d = d
  get_or (x ∷ _) zero _ = x
  get_or (_ ∷ xs) (suc i) d = get_or xs i d

  -- A write out of bounds changes nothing.
  abbrev pub set : List A → ℕ → A → List A
  set [] _ _ = []
  set (_ ∷ xs) zero v = v ∷ xs
  set (x ∷ xs) (suc i) v = x ∷ set xs i v

  abbrev pub replicate : ℕ → A → List A
  replicate zero _ = []
  replicate (suc n) a = a ∷ replicate n a

  pub length-append : (xs ys : List A) → length (xs ++ ys) ≡ length xs + length ys
  length-append [] ys = omega arith
  length-append (x ∷ xs) ys = omega (arith, length-append xs ys)

  pub length-set : (xs : List A) (i : ℕ) (v : A) → length (set xs i v) ≡ length xs
  length-set [] i v = refl
  length-set (x ∷ xs) zero v = refl
  length-set (x ∷ xs) (suc i) v = ap suc (length-set xs i v)

  pub get_or-set_self :
      (xs : List A) (i : ℕ) (v d : A) → i < length xs → get_or (set xs i v) i d ≡ v
  get_or-set_self [] i v d h = absurd (omega arith)
  get_or-set_self (x ∷ xs) zero v d h = refl
  get_or-set_self (x ∷ xs) (suc i) v d h = get_or-set_self xs i v d (omega arith)

  pub get_or-set_ne :
      (xs : List A) {i j : ℕ} (v d : A) → i ≢ j → get_or (set xs i v) j d ≡ get_or xs j d
  get_or-set_ne [] v d h = refl
  get_or-set_ne (x ∷ xs) {i = zero} {j = zero} v d h = absurd (h refl)
  get_or-set_ne (x ∷ xs) {i = zero} {j = suc j} v d h = refl
  get_or-set_ne (x ∷ xs) {i = suc i} {j = zero} v d h = refl
  get_or-set_ne (x ∷ xs) {i = suc i} {j = suc j} v d h = get_or-set_ne xs v d (λ e. h (ap suc e))

  pub get_elem?-lt : (xs : List A) (i : ℕ) {x : A} → get_elem? xs i ≡ some x → i < length xs
  get_elem?-lt [] i e = absurd (cc)
  get_elem?-lt (x ∷ xs) zero e = omega arith
  get_elem?-lt (x ∷ xs) (suc i) {x = y} e = omega (arith, get_elem?-lt xs i {x = y} e)

  pub get_elem?-ge : (xs : List A) (i : ℕ) → get_elem? xs i ≡ none → length xs ≤ i
  get_elem?-ge [] i e = omega arith
  get_elem?-ge (x ∷ xs) zero e = absurd (cc)
  get_elem?-ge (x ∷ xs) (suc i) e = omega (arith, get_elem?-ge xs i e)

  abbrev pub take : ℕ → List A → List A
  take zero _ = []
  take (suc n) [] = []
  take (suc n) (x ∷ xs) = x ∷ take n xs

  pub get_or-set_default : (xs : List A) (i : ℕ) (v : A) → get_or (set xs i v) i v ≡ v
  get_or-set_default [] i v = refl
  get_or-set_default (x ∷ xs) zero v = refl
  get_or-set_default (x ∷ xs) (suc i) v = get_or-set_default xs i v

  abbrev pub drop : ℕ → List A → List A
  drop zero xs = xs
  drop (suc n) [] = []
  drop (suc n) (x ∷ xs) = drop n xs

  pub drop-cons :
      (xs : List A) (i : ℕ) {x : A} {rest : List A}
      → drop i xs ≡ x ∷ rest
      → (get_elem? xs i ≡ some x) × (drop (i + 1) xs ≡ rest)
  drop-cons [] zero e = absurd (cc)
  drop-cons [] (suc i) e = absurd (cc)
  drop-cons (y ∷ ys) zero e = (cc, cc)
  drop-cons (y ∷ ys) (suc i) {x = x} {rest = rest} e =
      let (head, more) = drop-cons ys i {x = x} {rest = rest} e in
      (head, rw (drop-suc y ys (i + 1) {j = suc i + 1} (omega arith)) more)
    where
      drop-suc : (z : A) (zs : List A) (k : ℕ) {j : ℕ} → j ≡ suc k → drop j (z ∷ zs) ≡ drop k zs
      drop-suc z zs k e = rw e

  pub drop-nil : (xs : List A) (i : ℕ) → drop i xs ≡ [] → get_elem? xs i ≡ none
  drop-nil [] i e = refl
  drop-nil (y ∷ ys) zero e = absurd (cc)
  drop-nil (y ∷ ys) (suc i) e = drop-nil ys i e
