-- ===== src/Slist.antt =====
-- The list loops that the kernel writes out at each table (libraries/liblist/include/liblist.h,
-- SLIST_FOREACH and SLIST_REMOVE), over the list of the nodes that the chain holds.
use stardustos.Prelude.{ℕ, ◌+◌, Bool, List, [], ◌∷◌, Option, none, some, ◌==◌, if◌then◌else◌}
pub mod Laws
pub mod Chain
pub mod Examples

module _ {ℓ} {A : Type ℓ} where
  -- `SLIST_FOREACH(var, …) { if (test(var)) return var; } return NULL;`
  unfoldable pub find : (A → Bool) → List A → Option A
  find test [] = none
  find test (x ∷ xs) = if test x then some x else find test xs

  -- `SLIST_FOREACH(var, …) { if (index == i) return var; index++; } return NULL;`
  unfoldable pub get_from : List A → ℕ → ℕ → Option A
  get_from [] index i = none
  get_from (x ∷ xs) index i =
      let rest = get_from xs (index + 1) i in if index == i then some x else rest

  -- `SLIST_FOREACH(var, …) { if (test(var)) return index; index++; }`, and `none` for the -1.
  unfoldable pub indexof_from : (A → Bool) → List A → ℕ → Option ℕ
  indexof_from test [] index = none
  indexof_from test (x ∷ xs) index =
      let rest = indexof_from test xs (index + 1) in if test x then some index else rest

  -- `SLIST_REMOVE` of the node that the loop of `find` stops at.
  unfoldable pub remove : (A → Bool) → List A → List A
  remove test [] = []
  remove test (x ∷ xs) = if test x then xs else x ∷ remove test xs
