-- ===== src/Liblist/Examples.antt =====
-- A list of libraries/liblist/src/list.c with two values.
use stardustos.Prelude.{[], refl, true, value, ◌∷◌, ◌≡◌}
use stardustos.Slist.{indexof_from}
use stardustos.Liblist.{liblist_add, liblist_indexof}

value_added : liblist_add (8 ∷ 9 ∷ []) true 7 ≡ (value 0, 7 ∷ 8 ∷ 9 ∷ [])
unfolding liblist_add liblist_indexof indexof_from
value_added = refl
