-- ===== src/Slist/Chain/Refines.antt =====
-- Clients of the lists of libraries/liblist/include/liblist.h: runs of insertions and removals.
use stardustos.Slist.Laws.{length-remove}
use stardustos.Prelude.{
  List, Option, Option-cases, [], arith, eq_of_some, if◌then◌else◌, inl, inr, is_some, length, none,
  refl, some, subst, true, ℕ, ◌+◌, ◌<◌, ◌==◌, ◌∷◌, ◌≡◌, ◌≤◌,
}
use stardustos.Slist.{find, remove}
use stardustos.Slist.Chain.{Chain, Op, inserts, removes, run, slist_insert_head}
use stardustos.Slist.Chain.Links.{Holds, is_node, slist_insert_head-Holds, slist_remove-Holds}

-- What a client may do: insert a node that is not in the list, remove one that is.
unfoldable pub replay : List Op → List ℕ → Option (List ℕ)
replay [] xs = some xs
replay (inserts x ∷ ops) xs =
    let rest = replay ops (x ∷ xs) in
    if x == 0 then none else if is_some (find (is_node x) xs) then none else rest
replay (removes x ∷ ops) xs =
    let rest = replay ops (remove (is_node x) xs) in
    if is_some (find (is_node x) xs) then rest else none

fresh_node :
    (x : ℕ) (ops : List Op) (xs : List ℕ) {ys : List ℕ}
    → replay (inserts x ∷ ops) xs ≡ some ys
    → (0 < x) × (find (is_node x) xs ≡ none) × (replay ops (x ∷ xs) ≡ some ys)
unfolding replay
fresh_node x ops xs r = elim (Option-cases (find (is_node x) xs)) [
  | inl gone ↦ ground arith
  | inr (y, found) ↦ ground arith
]

held_node :
    (x : ℕ) (ops : List Op) (xs : List ℕ) {ys : List ℕ}
    → replay (removes x ∷ ops) xs ≡ some ys
    → (is_some (find (is_node x) xs) ≡ true) × (replay ops (remove (is_node x) xs) ≡ some ys)
unfolding replay
held_node x ops xs r = ground arith

-- A run that keeps to the rules on the plain list meets no fault on the pointers, its loops end
-- within as many rounds as there can be nodes, and the chain holds the list of the plain run.
pub run-refines-replay :
    (ops : List Op) (fuel : ℕ) (c : Chain) (xs : List ℕ) {ys : List ℕ}
    → Holds c xs
    → length xs + length ops ≤ fuel
    → replay ops xs ≡ some ys
    → (c' : Chain) × (run fuel ops c ≡ some c') × Holds c' ys
unfolding run replay
run-refines-replay [] fuel c xs {ys} h f r = (c, refl, subst (Holds c) (eq_of_some r) h)
run-refines-replay (inserts x ∷ ops) fuel c xs {ys} h f r =
    let (pos, fresh, rest) = fresh_node x ops xs {ys = ys} r in
    run-refines-replay ops fuel (slist_insert_head x c) (x ∷ xs) {ys = ys}
      (slist_insert_head-Holds x c xs h pos fresh) (omega arith) rest
run-refines-replay (removes x ∷ ops) fuel c xs {ys} h f r =
    let (held, rest) = held_node x ops xs {ys = ys} r in
    let (d, gives, holds) = slist_remove-Holds fuel x c xs h held (omega arith) in
    rw gives (
      run-refines-replay ops fuel d (remove (is_node x) xs) {ys = ys} holds
        (omega (arith, length-remove (is_node x) xs held)) rest)
