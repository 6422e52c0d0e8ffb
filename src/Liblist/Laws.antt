-- ===== src/Liblist/Laws.antt =====
-- The indices of libraries/liblist/src/list.c.
use stardustos.Slist.{remove, get_from, indexof_from}
use stardustos.Prelude.{
  Bool, List, Option, Option-cases, [], arith, false, if◌then◌else◌, inl, inr, length, none, refl,
  size_minus_one, some, value, ℕ, ◌+◌, ◌<◌, ◌==◌, ◌^◌, ◌∷◌, ◌≡◌,
}
use stardustos.Liblist.{liblist_add, liblist_get, liblist_indexof, liblist_remove}

indexof_from-shift :
    (list : List ℕ) (v i : ℕ)
    → indexof_from (λ n. n == v) list (i + 1)
      ≡ (elim (indexof_from (λ n. n == v) list i) as (λ o. Option ℕ) [
        | none ↦ none
        | some j ↦ some (j + 1)
      ])
unfolding indexof_from
indexof_from-shift [] v i = refl
indexof_from-shift (n ∷ ns) v i = ground (arith, indexof_from-shift ns v (i + 1))

indexof_from-lt :
    (list : List ℕ) (v i : ℕ) {j : ℕ}
    → indexof_from (λ n. n == v) list i ≡ some j
    → j < i + length list
unfolding indexof_from
indexof_from-lt [] v i e = cc
indexof_from-lt (n ∷ ns) v i {j} e = ground (arith, indexof_from-lt ns v (i + 1) {j = j})

-- A value that `liblist_add` puts into a list of fewer than 2 ^ 32 - 1 values has the index 0, is
-- given there, and its removal gives the list back; every other value moves up by one, or is still
-- absent.
pub liblist_add-index :
    (list list' : List ℕ) (alloc : Bool) (v n : ℕ)
    → length list + 1 < 2 ^ 32
    → liblist_add list alloc v ≡ (value n, list')
    → (liblist_indexof list' v ≡ 0)
      × (liblist_get list' 0 ≡ v)
      × (liblist_remove list' v ≡ list)
      × ((u : ℕ)
          → (u == v) ≡ false
          → liblist_indexof list' u ≡ (
              if liblist_indexof list u == size_minus_one
              then size_minus_one
              else liblist_indexof list u + 1))
unfolding liblist_add liblist_indexof liblist_get liblist_remove indexof_from get_from remove
liblist_add-index list list' alloc v n few h = (
  ground (arith, h),
  ground (arith, h),
  ground (arith, h),
  λ u ne. elim (Option-cases (indexof_from (λ n. n == u) list 0)) [
    | inl absent ↦ ground (arith, h, ne, absent, indexof_from-shift list u 0)
    | inr (j, found) ↦
        ground (arith, h, ne, found, indexof_from-shift list u 0, indexof_from-lt list u 0 found)
  ],
)
