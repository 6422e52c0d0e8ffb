-- ===== src/Slist/Chain.antt =====
-- The macros of libraries/liblist/include/liblist.h (SLIST_INSERT_HEAD, SLIST_REMOVE_HEAD,
-- SLIST_REMOVE, SLIST_FOREACH) on the pointers themselves: a node is its address, NULL is 0.
use stardustos.Prelude.{
  Bool, List, Option, [], if◌then◌else◌, none, some, suc, zero, ℕ, ◌==◌, ◌>>=◌, ◌∷◌,
}
pub mod Links
pub mod Refines

-- `slh_first`, and `sle_next` of the node at an address.
pub record Chain : Type 0 where
  pub first : ℕ
  pub next : ℕ → ℕ

-- SLIST_INIT, with nothing known of the nodes that are not in the list.
abbrev pub slist_init : (ℕ → ℕ) → Chain
slist_init next = record { first = 0; next = next }

-- `SLIST_NEXT(x) = p;`
abbrev pub write_next : ℕ → ℕ → (ℕ → ℕ) → ℕ → ℕ
write_next x p next y = if x == y then p else next y

unfoldable pub slist_insert_head : ℕ → Chain → Chain
slist_insert_head x c = record { first = x; next = write_next x c.first c.next }

-- `SLIST_NEXT` of NULL is a fault.
unfoldable pub slist_remove_head : Chain → Option Chain
slist_remove_head c = if c.first == 0 then none else some (record c { first = c.next c.first })

-- `while (SLIST_NEXT(currlm) != elem) currlm = SLIST_NEXT(currlm);`
unfoldable pub node_before : ℕ → (ℕ → ℕ) → ℕ → ℕ → Option ℕ
node_before zero next elem currlm = none
node_before (suc fuel) next elem currlm =
    let rest = node_before fuel next elem (next currlm) in
    if currlm == 0 then none else if next currlm == elem then some currlm else rest

unfoldable pub slist_remove : ℕ → ℕ → Chain → Option Chain
unfolding slist_remove_head node_before
slist_remove fuel elem c = if c.first == elem then slist_remove_head c else do
  currlm ← node_before fuel c.next elem c.first
  some (record c { next = write_next currlm (c.next (c.next currlm)) c.next })

-- `SLIST_FOREACH(var, …) { if (test(var)) return var; } return NULL;`, from the node `var`.
unfoldable pub slist_foreach : ℕ → (ℕ → ℕ) → (ℕ → Bool) → ℕ → Option (Option ℕ)
slist_foreach zero next test var = none
slist_foreach (suc fuel) next test var =
    let rest = slist_foreach fuel next test (next var) in
    if var == 0 then some none else if test var then some (some var) else rest

-- What a client does with a list.
pub data Op : Type 0 where
  inserts removes : ℕ → Op

unfoldable pub run : ℕ → List Op → Chain → Option Chain
unfolding slist_insert_head slist_remove
run fuel [] c = some c
run fuel (inserts x ∷ ops) c = run fuel ops (slist_insert_head x c)
run fuel (removes x ∷ ops) c = slist_remove fuel x c >>= run fuel ops
