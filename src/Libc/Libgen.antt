-- ===== src/Libc/Libgen.antt =====
-- libraries/libc/src/libgen: `dirname` and `basename`, which cut the string they are given. A
-- string is the list of its bytes, and a result that points into it is the rest from there on.
pub mod Laws
use stardustos.Prelude.{
  Bool, List, Option, [], codes, false, if◌then◌else◌, none, refl, reverse, some, ℕ, ◌==◌, ◌∷◌, ◌≡◌,
}

abbrev pub slash : ℕ
slash = b'/'

-- `while (*p == '/') { if (p == path) return path; *p-- = 0; }` over the reversed string: the
-- trailing slashes go, but for the first byte of the string.
unfoldable pub trim_rev : List ℕ → List ℕ
trim_rev [] = []
trim_rev (c ∷ []) = c ∷ []
trim_rev (c ∷ d ∷ cs) = let rest = trim_rev (d ∷ cs) in if c == slash then rest else c ∷ d ∷ cs

-- `while (p >= path && *p != '/') p--;` over the reversed string: what stands before the last slash,
-- reversed and without that slash, or `none` if there is none.
unfoldable pub before_slash : List ℕ → Option (List ℕ)
before_slash [] = none
before_slash (c ∷ cs) = if c == slash then some cs else before_slash cs

-- What stands behind the last slash.
unfoldable pub behind_slash : List ℕ → List ℕ → List ℕ
behind_slash acc [] = acc
behind_slash acc (c ∷ cs) = if c == slash then acc else behind_slash (c ∷ acc) cs

abbrev pub all_slash : List ℕ → Bool
all_slash [] = false
all_slash (c ∷ []) = c == slash
all_slash (c ∷ d ∷ cs) = false

-- The result, and the string that `path` is afterwards.
unfoldable pub dirname : List ℕ → List ℕ × List ℕ
unfolding trim_rev before_slash
dirname [] = (codes ".", [])
dirname (c ∷ cs) =
    let rev = trim_rev (reverse (c ∷ cs)) in
    if all_slash rev then (reverse rev, reverse rev) else (elim (before_slash rev) [
      | none ↦ (codes ".", reverse rev)
      | some [] ↦ (codes "/", reverse rev)
      | some (d ∷ ds) ↦ (reverse (d ∷ ds), reverse (d ∷ ds))
    ])

unfoldable pub basename : List ℕ → List ℕ × List ℕ
unfolding trim_rev behind_slash
basename [] = (codes ".", [])
basename (c ∷ cs) =
    let rev = trim_rev (reverse (c ∷ cs)) in
    if all_slash rev then (reverse rev, reverse rev) else (behind_slash [] rev, reverse rev)

dirname_test : dirname (codes "dev/tty//") ≡ (codes "dev", codes "dev")
unfolding dirname
dirname_test = refl

dirname_root_test : dirname (codes "/init") ≡ (codes "/", codes "/init")
unfolding dirname
dirname_root_test = refl

basename_test : basename (codes "dev/tty//") ≡ (codes "tty", codes "dev/tty")
unfolding basename
basename_test = refl
