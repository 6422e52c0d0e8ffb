-- ===== src/Liblist.antt =====
-- libraries/liblist/src/list.c: a list of pointers, by the values that its nodes hold. NULL is 0.
use stardustos.Prelude.{
  Bool, List, Ret, [], eexist, enomem, failed, if◌then◌else◌, none, not, size_minus_one, some,
  value, ℕ, ◌+◌, ◌==◌, ◌∷◌,
}
use stardustos.Slist.{get_from, indexof_from, remove}
pub mod Laws
pub mod Examples

unfoldable pub liblist_indexof : List ℕ → ℕ → ℕ
liblist_indexof list v = elim (indexof_from (λ n. n == v) list 0) [
  | none ↦ size_minus_one
  | some i ↦ i
]

unfoldable pub count_from : List ℕ → ℕ → ℕ
count_from [] i = i
count_from (n ∷ ns) i = count_from ns (i + 1)

unfoldable pub liblist_length : List ℕ → ℕ
liblist_length list = count_from list 0

unfoldable pub liblist_get : List ℕ → ℕ → ℕ
liblist_get list i = elim (get_from list 0 i) [ none ↦ 0 | some v ↦ v ]

-- `alloc` says whether `malloc` finds memory.
unfoldable pub liblist_add : List ℕ → Bool → ℕ → Ret × List ℕ
liblist_add list alloc v =
    if not (liblist_indexof list v == size_minus_one)
    then (failed eexist, list)
    else if alloc
    then (value 0, v ∷ list)
    else (failed enomem, list)

unfoldable pub liblist_remove : List ℕ → ℕ → List ℕ
liblist_remove list v = remove (λ n. n == v) list

-- The nodes that `liblist_destroy` frees, by their values, in its order; `list` keeps its head.
unfoldable pub liblist_destroy : List ℕ → List ℕ
liblist_destroy [] = []
liblist_destroy (n ∷ ns) = n ∷ liblist_destroy ns
