-- ===== src/Slist/Chain/Links.antt =====
-- The macros of libraries/liblist/include/liblist.h on a chain of pointers, beside the
-- operations of Slist.antt on the list that the chain holds.
use stardustos.Prelude.{
  ==_iff, Bool, Bool-cases, List, [], ap, arith, false, inl, inr, is_some, length, none, refl, some,
  subst, suc, sym, true, zero, ℕ, ◌<◌, ◌==◌, ◌∙◌, ◌∷◌, ◌≡◌, ◌≤◌,
}
use stardustos.Slist.{find, remove}
use stardustos.Slist.Laws.{Unique, Unique-remove}
use stardustos.Slist.Chain.{
  Chain, node_before, slist_foreach, slist_insert_head, slist_remove, slist_remove_head, write_next,
}

-- `test(var)` for `var == elem`
abbrev pub is_node : ℕ → ℕ → Bool
is_node elem x = x == elem

-- The pointers from `p` on lead through the nodes of a list to NULL.
abbrev pub Links : (ℕ → ℕ) → ℕ → List ℕ → Type 0
Links next p [] = p ≡ 0
Links next p (x ∷ xs) = (p ≡ x) × (0 < x) × Links next (next x) xs

abbrev pub Distinct : List ℕ → Type 0
Distinct = Unique (λ (i : ℕ). i) ◌==◌

-- The chain holds a list of different nodes.
abbrev pub Holds : Chain → List ℕ → Type 0
Holds c xs = Links c.next c.first xs × Distinct xs

-- A write to a node that is not in the list is not seen along it.
pub Links-write_next :
    (next : ℕ → ℕ) (p q v : ℕ) (xs : List ℕ)
    → find (is_node q) xs ≡ none
    → Links next p xs
    → Links (write_next q v next) p xs
unfolding find
Links-write_next next p q v [] h l = l
Links-write_next next p q v (x ∷ xs) h l = ground (arith, Links-write_next next (next x) q v xs)

pub Links-eq : (next : ℕ → ℕ) {p q : ℕ} (xs : List ℕ) → p ≡ q → Links next p xs → Links next q xs
Links-eq next xs e l = subst (λ r. Links next r xs) e l

write_next_self : (q v : ℕ) (next : ℕ → ℕ) → write_next q v next q ≡ v
write_next_self q v next = ground arith

write_next_ne : (q v : ℕ) (next : ℕ → ℕ) (y : ℕ) → (q == y) ≡ false → write_next q v next y ≡ next y
write_next_ne q v next y ne = ground arith

find-tail : (k z : ℕ) (zs : List ℕ) → find (is_node k) (z ∷ zs) ≡ none → find (is_node k) zs ≡ none
unfolding find
find-tail k z zs h = ground arith

-- A node that is found where another is not is another node.
other_node :
    (q y : ℕ) (xs : List ℕ)
    → is_some (find (is_node q) xs) ≡ true
    → find (is_node y) xs ≡ none
    → (q == y) ≡ false
other_node q y xs m h = elim (Bool-cases (q == y)) [
  | inl e ↦
      let found : is_some (find (is_node y) xs) ≡ true =
        subst (λ k. is_some (find (is_node k) xs) ≡ true) ((==_iff q y).0 e) m in
      cc
  | inr e ↦ e
]

found-cons :
    (q y : ℕ) (xs : List ℕ)
    → is_some (find (is_node q) xs) ≡ true
    → is_some (find (is_node q) (y ∷ xs)) ≡ true
unfolding find
found-cons q y xs h = ground arith

-- The node `y`, rewritten to point past `z`, leads through what follows `z`.
unlink :
    (next : ℕ → ℕ) (y z : ℕ) (zs : List ℕ)
    → Links next y (y ∷ z ∷ zs)
    → Distinct (y ∷ z ∷ zs)
    → Links (write_next y (next (next y)) next) y (y ∷ zs)
unlink next y z zs l u =
    let at_z : next (next y) ≡ next z = ap next (l.2).0 in
    let past : next (next y) ≡ write_next y (next (next y)) next y =
      sym (write_next_self y (next (next y)) next) in
    (
      refl,
      l.1,
      Links-eq (write_next y (next (next y)) next) zs past (
          Links-write_next next (next (next y)) y (next (next y)) zs (find-tail y z zs u.0)
            (Links-eq next zs (sym at_z) (l.2).2)),
    )

-- The loop of SLIST_REMOVE stops at the node before `elem`, and the write there unlinks it.
pub node_before_lem :
    (fuel : ℕ) (next : ℕ → ℕ) (elem y : ℕ) (ys : List ℕ)
    → Links next y (y ∷ ys)
    → Distinct (y ∷ ys)
    → is_some (find (is_node elem) ys) ≡ true
    → length ys ≤ fuel
    → (q : ℕ) × (node_before fuel next elem y ≡ some q)
      × (is_some (find (is_node q) (y ∷ ys)) ≡ true)
      × Links (write_next q (next (next q)) next) y (y ∷ remove (is_node elem) ys)
unfolding find node_before remove
node_before_lem fuel next elem y [] l u m f = cc
node_before_lem zero next elem y (z ∷ zs) l u m f = absurd (omega arith)
node_before_lem (suc fuel) next elem y (z ∷ zs) l u m f = elim (Bool-cases (z == elem)) [
  | inl e ↦ (y, ground arith, ground arith, rw e (unlink next y z zs l u))
  | inr e ↦
      let (q, stops, found, linked) =
        node_before_lem fuel next elem z zs (refl, (l.2).1, (l.2).2) u.1 (ground arith)
          (omega arith) in
      let ne : q == y ≡ false = other_node q y (z ∷ zs) found u.0 in
      let goes_on : node_before fuel next elem (next y) ≡ some q =
        subst (λ p. node_before fuel next elem p ≡ some q) (sym ((l.2).0)) stops in
      let same : z ≡ write_next q (next (next q)) next y =
        sym (write_next_ne q (next (next q)) next y ne ∙ (l.2).0) in
      (
        q,
        ground (arith, goes_on),
        found-cons q y (z ∷ zs) found,
        rw e (
          refl,
          l.1,
          Links-eq (write_next q (next (next q)) next) (z ∷ remove (is_node elem) zs) same linked,
        ),
      )
]

-- SLIST_REMOVE of a node that is in the list unlinks that node alone, and its loop ends.
pub slist_remove-Holds :
    (fuel elem : ℕ) (c : Chain) (xs : List ℕ)
    → Holds c xs
    → is_some (find (is_node elem) xs) ≡ true
    → length xs ≤ fuel
    → (c' : Chain) × (slist_remove fuel elem c ≡ some c') × Holds c' (remove (is_node elem) xs)
unfolding find remove slist_remove slist_remove_head
slist_remove-Holds fuel elem c [] h m f = cc
slist_remove-Holds fuel elem c (x ∷ xs) h m f =
    let unique : Distinct (remove (is_node elem) (x ∷ xs)) =
      Unique-remove (λ (i : ℕ). i) ◌==◌ (is_node elem) (x ∷ xs) h.1 in
    elim (Bool-cases (x == elem)) [
      | inl e ↦ (
        record c { first = c.next c.first },
        ground arith,
        (rw e (Links-eq c.next xs (ap c.next (sym ((h.0).0))) ((h.0).2)), unique),
      )
      | inr e ↦
          let (q, stops, found, linked) =
            node_before_lem fuel c.next elem x xs (refl, (h.0).1, (h.0).2) h.1 (ground arith)
              (omega arith) in
          let from_first : node_before fuel c.next elem c.first ≡ some q =
            subst (λ p. node_before fuel c.next elem p ≡ some q) (sym ((h.0).0)) stops in
          let elsewhere : (c.first == elem) ≡ false =
            subst (λ p. (p == elem) ≡ false) (sym ((h.0).0)) e in
          (
            record c { next = write_next q (c.next (c.next q)) c.next },
            rw (elsewhere, from_first) refl,
            (rw e ((h.0).0, linked.1, linked.2), unique),
          )
    ]

-- SLIST_INSERT_HEAD puts a node that is not in the list at its front.
pub slist_insert_head-Holds :
    (x : ℕ) (c : Chain) (xs : List ℕ)
    → Holds c xs
    → 0 < x
    → find (is_node x) xs ≡ none
    → Holds (slist_insert_head x c) (x ∷ xs)
unfolding slist_insert_head
slist_insert_head-Holds x c xs h pos fresh =
    let self : c.first ≡ write_next x c.first c.next x = sym (write_next_self x c.first c.next) in
    let kept : Links (write_next x c.first c.next) c.first xs =
      Links-write_next c.next c.first x c.first xs fresh h.0 in
    ((refl, pos, Links-eq (write_next x c.first c.next) xs self kept), (fresh, h.1))

-- The loop of SLIST_FOREACH ends, and stops at the node that `find` returns.
pub slist_foreach-eq-find :
    (fuel : ℕ) (next : ℕ → ℕ) (test : ℕ → Bool) (p : ℕ) (xs : List ℕ)
    → Links next p xs
    → length xs < fuel
    → slist_foreach fuel next test p ≡ some (find test xs)
unfolding slist_foreach find
slist_foreach-eq-find zero next test p xs l f = absurd (omega arith)
slist_foreach-eq-find (suc fuel) next test p [] l f = ground arith
slist_foreach-eq-find (suc fuel) next test p (x ∷ xs) l f =
    let rest : slist_foreach fuel next test (next x) ≡ some (find test xs) =
      slist_foreach-eq-find fuel next test (next x) xs (l.2) (omega arith) in
    rw l.0 (ground (arith, l.1, rest))

head-absent :
    (next : ℕ → ℕ) (elem p : ℕ) (xs : List ℕ)
    → Links next p xs
    → 0 < elem
    → find (is_node elem) xs ≡ none
    → (p == elem) ≡ false
unfolding find
head-absent next elem p [] l pos m = ground arith
head-absent next elem p (x ∷ xs) l pos m = ground arith

-- The loop of SLIST_REMOVE for a node that is not in the list runs into NULL.
pub node_before-absent :
    (fuel : ℕ) (next : ℕ → ℕ) (elem p : ℕ) (xs : List ℕ)
    → Links next p xs
    → 0 < elem
    → find (is_node elem) xs ≡ none
    → node_before fuel next elem p ≡ none
unfolding node_before
node_before-absent zero next elem p xs l pos m = refl
node_before-absent (suc fuel) next elem p [] l pos m = ground arith
node_before-absent (suc fuel) next elem p (x ∷ xs) l pos m =
    let tail : Links next (next p) xs = Links-eq next xs (ap next (sym l.0)) l.2 in
    let gone = find-tail elem x xs m in
    ground (
      arith,
      head-absent next elem (next p) xs tail pos gone,
      node_before-absent fuel next elem (next p) xs tail pos gone,
    )

-- SLIST_REMOVE of a node that is not in the list is a fault, whatever the fuel.
pub slist_remove-absent :
    (fuel elem : ℕ) (c : Chain) (xs : List ℕ)
    → Holds c xs
    → 0 < elem
    → find (is_node elem) xs ≡ none
    → slist_remove fuel elem c ≡ none
unfolding slist_remove
slist_remove-absent fuel elem c xs h pos m =
    rw
      (
        head-absent c.next elem c.first xs h.0 pos m,
        node_before-absent fuel c.next elem c.first xs h.0 pos m,
      )
      refl
