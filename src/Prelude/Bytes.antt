-- ===== src/Prelude/Bytes.antt =====
-- C strings as the lists of their bytes before the NUL, and their equality.
use Prim.Native.Nat.{ℕ}
use Prim.Native.Char.{code}
use Prim.Native.String.{String}
use mathlib.Core.Path.{◌≡◌, refl}
use mathlib.Core.Logic.{◌↔◌}
use mathlib.Core.Bool.{Bool, true, false, ◌&&◌}
use mathlib.Core.List.{List, [], ◌∷◌}
use native.Mathlib.Omega.{arith}
use stardustos.Prelude.Tests.{◌==◌}

-- The bytes of a literal.
abbrev pub codes : String → List ℕ
codes String.[] = []
codes (String.◌∷◌ letter rest) = code letter ∷ codes rest

-- `!strcmp(a, b)`
unfoldable pub str_eq : List ℕ → List ℕ → Bool
str_eq [] [] = true
str_eq [] (_ ∷ _) = false
str_eq (_ ∷ _) [] = false
str_eq (x ∷ xs) (y ∷ ys) = (x == y) && str_eq xs ys

pub str_eq→eq : (a b : List ℕ) → str_eq a b ≡ true → a ≡ b
unfolding str_eq
str_eq→eq [] [] h = refl
str_eq→eq [] (y ∷ ys) h = cc
str_eq→eq (x ∷ xs) [] h = cc
str_eq→eq (x ∷ xs) (y ∷ ys) h = ground (arith, str_eq→eq xs ys)

pub str_eq_refl : (a : List ℕ) → str_eq a a ≡ true
unfolding str_eq
str_eq_refl [] = refl
str_eq_refl (x ∷ xs) = ground (arith, str_eq_refl xs)

pub str_eq_iff : (a b : List ℕ) → (str_eq a b ≡ true) ↔ (a ≡ b)
str_eq_iff a b = (str_eq→eq a b, λ e. rw e (str_eq_refl b))

pub str_eq_swap : (a b : List ℕ) → str_eq a b ≡ false → str_eq b a ≡ false
unfolding str_eq
str_eq_swap [] [] h = h
str_eq_swap [] (y ∷ ys) h = refl
str_eq_swap (x ∷ xs) [] h = refl
str_eq_swap (x ∷ xs) (y ∷ ys) h = ground (arith, str_eq_swap xs ys)
