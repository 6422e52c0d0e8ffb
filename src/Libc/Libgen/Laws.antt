-- ===== src/Libc/Libgen/Laws.antt =====
-- What `dirname` of libraries/libc/src/libgen/dirname.c leaves of a string.
use mathlib.Core.List.{reverse-append, reverse-reverse}
use stardustos.Prelude.{
  Bool, List, [], ap, arith, codes, false, length, none, not, refl, reverse, true, ℕ, ◌&&◌, ◌++◌,
  ◌<◌, ◌==◌, ◌∙◌, ◌∷◌, ◌≡◌,
}
use stardustos.Libc.Libgen.{all_slash, before_slash, dirname, slash, trim_rev}

-- No byte is a slash.
abbrev pub no_slash : List ℕ → Bool
no_slash [] = true
no_slash (c ∷ cs) = not (c == slash) && no_slash cs

no_slash-append : (xs ys : List ℕ) → no_slash (xs ++ ys) ≡ (no_slash xs && no_slash ys)
no_slash-append [] ys = refl
no_slash-append (x ∷ xs) ys = ground (arith, no_slash-append xs ys)

no_slash-reverse : (xs : List ℕ) → no_slash (reverse xs) ≡ no_slash xs
no_slash-reverse [] = refl
no_slash-reverse (x ∷ xs) =
    ap no_slash (reverse-append (x ∷ []) xs)
    ∙ ground (arith, no_slash-append (reverse xs) (x ∷ []), no_slash-reverse xs)

trim_rev-plain : (xs : List ℕ) → no_slash xs ≡ true → trim_rev xs ≡ xs
unfolding trim_rev
trim_rev-plain [] h = refl
trim_rev-plain (x ∷ []) h = refl
trim_rev-plain (x ∷ y ∷ ys) h = ground arith

before_slash-plain : (xs : List ℕ) → no_slash xs ≡ true → before_slash xs ≡ none
unfolding before_slash
before_slash-plain [] h = refl
before_slash-plain (x ∷ xs) h = ground (arith, before_slash-plain xs)

all_slash-plain : (xs : List ℕ) → no_slash xs ≡ true → all_slash xs ≡ false
all_slash-plain [] h = refl
all_slash-plain (x ∷ []) h = ground arith
all_slash-plain (x ∷ y ∷ ys) h = refl

dirname-plain_rev :
    (c : ℕ) (cs : List ℕ)
    → no_slash (reverse (c ∷ cs)) ≡ true
    → dirname (c ∷ cs) ≡ (codes ".", reverse (reverse (c ∷ cs)))
unfolding dirname
dirname-plain_rev c cs plain = ground (
  arith,
  trim_rev-plain (reverse (c ∷ cs)) plain,
  all_slash-plain (reverse (c ∷ cs)) plain,
  before_slash-plain (reverse (c ∷ cs)) plain,
)

-- A name without a slash lies in ".", and is not cut.
pub dirname-plain :
    (c : ℕ) (cs : List ℕ) → no_slash (c ∷ cs) ≡ true → dirname (c ∷ cs) ≡ (codes ".", c ∷ cs)
dirname-plain c cs h =
    let plain : no_slash (reverse (c ∷ cs)) ≡ true = no_slash-reverse (c ∷ cs) ∙ h in
    dirname-plain_rev c cs plain ∙ ap (λ r. (codes ".", r)) (reverse-reverse (c ∷ cs))

-- A result of more than one byte is the string that is left.
pub dirname-cut : (s : List ℕ) → 1 < length (dirname s).0 → (dirname s).1 ≡ (dirname s).0
unfolding dirname
dirname-cut [] h = absurd (omega arith)
dirname-cut (c ∷ cs) h = ground arith
