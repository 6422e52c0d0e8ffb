-- ===== src/Libc/Strings/Reads.antt =====
-- What strlen, strcmp and strncmp of libraries/libc/src/string say of the strings that they read,
-- and what strcpy writes.
use stardustos.Prelude.{
  Bool-cases, List, [], arith, inl, inr, length, refl, some, str_eq, suc, zero, ℕ, ◌+◌, ◌<◌, ◌==◌,
  ◌^◌, ◌∙◌, ◌∷◌, ◌≡◌, ◌≢◌,
}
use stardustos.Libc.Strings.{byte_diff, len_from, strcmp, strlen}

-- The bytes of a string, none of them NUL, and its NUL stand from an address on.
abbrev pub IsString : (ℕ → ℕ) → ℕ → List ℕ → Type 0
IsString m a [] = m a ≡ 0
IsString m a (c ∷ cs) = (m a ≡ c) × (c ≢ 0) × IsString m (a + 1) cs

len_from-length :
    (m : ℕ → ℕ) (str : ℕ) (cs : List ℕ) (len fuel : ℕ)
    → IsString m str cs
    → length cs < fuel
    → len_from m str len fuel ≡ some (len + length cs)
unfolding len_from
len_from-length m str cs len zero h enough = absurd (omega arith)
len_from-length m str [] len (suc fuel) h enough = ground arith
len_from-length m str (c ∷ cs) len (suc fuel) h enough =
    let rest = len_from-length m (str + 1) cs (len + 1) fuel h.2 (omega arith) in
    ground (arith, rest, h.0, h.1)

-- `strlen` counts the bytes before the NUL; fuel for one more than these is enough.
pub strlen-length :
    (m : ℕ → ℕ) (str fuel : ℕ) (cs : List ℕ)
    → IsString m str cs
    → length cs < fuel
    → strlen m fuel str ≡ some (length cs)
unfolding strlen
strlen-length m str fuel cs h enough = len_from-length m str cs 0 fuel h enough ∙ ground arith

-- `strcmp` of two strings returns, and gives 0 just if they hold the same bytes; fuel for one more
-- than the bytes of the first string is enough.
pub strcmp-str_eq :
    (m : ℕ → ℕ) (fuel s1 s2 : ℕ) (xs ys : List ℕ)
    → ((a : ℕ) → m a < 2 ^ 8)
    → IsString m s1 xs
    → IsString m s2 ys
    → length xs < fuel
    → (d : ℕ) × (strcmp m fuel s1 s2 ≡ some d) × ((d == 0) ≡ str_eq xs ys)
unfolding strcmp str_eq
strcmp-str_eq m zero s1 s2 xs ys bytes h1 h2 enough = absurd (omega arith)
strcmp-str_eq m (suc fuel) s1 s2 [] [] bytes h1 h2 enough = (0, ground arith, refl)
strcmp-str_eq m (suc fuel) s1 s2 [] (y ∷ ys) bytes h1 h2 enough = (
  byte_diff (m s1) (m s2),
  ground (arith, bytes s1, bytes s2),
  ground (arith, bytes s1, bytes s2),
)
strcmp-str_eq m (suc fuel) s1 s2 (x ∷ xs) [] bytes h1 h2 enough = (
  byte_diff (m s1) (m s2),
  ground (arith, bytes s1, bytes s2),
  ground (arith, bytes s1, bytes s2),
)
strcmp-str_eq m (suc fuel) s1 s2 (x ∷ xs) (y ∷ ys) bytes h1 h2 enough =
    let (d, more, verdict) =
      strcmp-str_eq m fuel (s1 + 1) (s2 + 1) xs ys bytes h1.2 h2.2 (omega arith) in
    elim (Bool-cases (x == y)) [
      | inl same ↦ (d, ground (arith, bytes s1, bytes s2), ground (arith, bytes s1, bytes s2))
      | inr differ ↦ (
        byte_diff (m s1) (m s2),
        ground (arith, bytes s1, bytes s2),
        ground (arith, bytes s1, bytes s2),
      )
    ]
