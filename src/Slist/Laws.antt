-- ===== src/Slist/Laws.antt =====
-- Laws of the list loops: a lookup after an insertion or a removal, tables with unique keys.
use stardustos.Prelude.{
  Bool, Bool-cases, List, [], arith, false, get_elem?, if◌then◌else◌, inl, inr, is_some, length,
  none, refl, some, subst, suc, true, zero, ℕ, ◌+◌, ◌-◌, ◌==◌, ◌↔◌, ◌∷◌, ◌≡◌, ◌≤◌,
}
use stardustos.Slist.{find, get_from, indexof_from, remove}

module _ {A : Type 0} where
  get_elem?-cons :
      (x : A) (xs : List A) (n : ℕ)
      → get_elem? (x ∷ xs) n ≡ (if n == 0 then some x else get_elem? xs (n - 1))
  get_elem?-cons x xs zero = refl
  get_elem?-cons x xs (suc n) = ground arith

  -- The counting loop is an index into the list.
  pub get_from-eq-get_elem? :
      (xs : List A) (index i : ℕ) → index ≤ i → get_from xs index i ≡ get_elem? xs (i - index)
  unfolding get_from
  get_from-eq-get_elem? [] index i h = refl
  get_from-eq-get_elem? (x ∷ xs) index i h = elim (Bool-cases (index == i)) [
    | inl e ↦ ground (arith, get_elem?-cons x xs (i - index))
    | inr ne ↦
        let less : i - (index + 1) ≡ i - index - 1 = omega arith in
        ground (arith, get_elem?-cons x xs (i - index), get_from-eq-get_elem? xs (index + 1) i)
  ]

  pub find-remove-none :
      (p q : A → Bool) (xs : List A) → find p xs ≡ none → find p (remove q xs) ≡ none
  unfolding find remove
  find-remove-none p q [] h = refl
  find-remove-none p q (x ∷ xs) h = ground (arith, find-remove-none p q xs)

  pub length-remove :
      (p : A → Bool) (xs : List A)
      → is_some (find p xs) ≡ true
      → length (remove p xs) + 1 ≡ length xs
  unfolding find remove
  length-remove p [] h = cc
  length-remove p (x ∷ xs) h = ground (arith, length-remove p xs)

  pub find-test : (p : A → Bool) (xs : List A) {x : A} → find p xs ≡ some x → p x ≡ true
  unfolding find
  find-test p [] h = cc
  find-test p (y ∷ ys) {x} h = ground (arith, find-test p ys {x = x})

  -- The first node that passes a test stands at the index where the counting loop stops.
  pub get_from-indexof :
      (p : A → Bool) (xs : List A) (index : ℕ) {i : ℕ}
      → indexof_from p xs index ≡ some i
      → (index ≤ i) × (get_elem? xs (i - index) ≡ find p xs)
  unfolding indexof_from find
  get_from-indexof p [] index h = cc
  get_from-indexof p (x ∷ xs) index {i} h = elim (Bool-cases (p x)) [
    | inl e ↦ ground (arith, get_elem?-cons x xs (i - index))
    | inr ne ↦
        ground (arith, get_elem?-cons x xs (i - index), get_from-indexof p xs (index + 1) {i = i})
  ]

-- Tables whose nodes carry a key, with at most one node to a key.
module _ {A K : Type 0} (key : A → K) (same : K → K → Bool) where
  -- `test(var)` for the key `k`
  abbrev pub has_key : K → A → Bool
  has_key k x = same (key x) k

  abbrev pub Unique : List A → Type 0
  Unique [] = Unit
  Unique (x ∷ xs) = (find (has_key (key x)) xs ≡ none) × Unique xs

  pub Unique-remove : (p : A → Bool) (xs : List A) → Unique xs → Unique (remove p xs)
  unfolding remove
  Unique-remove p [] u = tt
  Unique-remove p (x ∷ xs) u =
      ground (arith, find-remove-none (has_key (key x)) p xs, Unique-remove p xs)

  module _ (same_iff : (j k : K) → (same j k ≡ true) ↔ (j ≡ k)) where
    pub find-remove_self :
        (k : K) (xs : List A) → Unique xs → find (has_key k) (remove (has_key k) xs) ≡ none
    unfolding find remove
    find-remove_self k [] u = refl
    find-remove_self k (x ∷ xs) u = elim (Bool-cases (same (key x) k)) [
      | inl e ↦ rw e (subst (λ j. find (has_key j) xs ≡ none) ((same_iff (key x) k).0 e) u.0)
      | inr ne ↦ rw (ne, ne) (find-remove_self k xs u.1)
    ]

    pub find-remove_ne :
        (j k : K) (xs : List A)
        → same j k ≡ false
        → find (has_key j) (remove (has_key k) xs) ≡ find (has_key j) xs
    unfolding find remove
    find-remove_ne j k [] ne = refl
    find-remove_ne j k (x ∷ xs) ne =
        ground (arith, same_iff (key x) j, same_iff (key x) k, same_iff j k, find-remove_ne j k xs)

module _ {A : Type 0} where
  -- What the loop finds nowhere does not pass at any index.
  pub get_elem?-find-none :
      (test : A → Bool) (xs : List A) (i : ℕ) {x : A}
      → find test xs ≡ none
      → get_elem? xs i ≡ some x
      → test x ≡ false
  unfolding find
  get_elem?-find-none test [] i h e = cc
  get_elem?-find-none test (y ∷ ys) zero h e = ground arith
  get_elem?-find-none test (y ∷ ys) (suc i) {x} h e =
      get_elem?-find-none test ys i {x = x} (ground arith) e
