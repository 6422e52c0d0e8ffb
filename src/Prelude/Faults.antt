-- ===== src/Prelude/Faults.antt =====
-- Undefined behaviour as `none`: a write past a buffer, a read through NULL.
use Prim.Native.Nat.{ℕ}
use mathlib.Core.Path.{◌≡◌, refl}
use mathlib.Core.Option.{Option, none, some}
use mathlib.Core.List.{List}
use stardustos.Prelude.Tests.{ltb, if◌then◌else◌}
use stardustos.Prelude.Lists.{length}

infixl 5 ◌>>=◌
abbrev pub ◌>>=◌ : {A B : Type 0} → Option A → (A → Option B) → Option B
none >>= f = none
some a >>= f = f a

-- `strcpy` of a string into a `char` array of `cap` bytes: the string and its NUL have to fit.
unfoldable pub strcpy_into : ℕ → List ℕ → Option (List ℕ)
strcpy_into cap s = if ltb (length s) cap then some s else none

-- Inversion of a chain that meets no fault.
pub >>=-eq-some :
    {A B : Type 0} (m : Option A) (f : A → Option B) {b : B}
    → (m >>= f) ≡ some b
    → (a : A) × (m ≡ some a) × (f a ≡ some b)
>>=-eq-some none f h = cc
>>=-eq-some (some a) f h = (a, refl, h)
