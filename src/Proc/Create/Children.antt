-- ===== src/Proc/Create/Children.antt =====
-- The children that a process counts in newland/arch/x86/src/proc.c.
use stardustos.Prelude.{
  ==_iff, Bool-cases, List, arith, get_or, get_or-set_default, get_or-set_ne, inl, inr, none, refl,
  set, some, subst, suc, sym, zero, ℕ, ◌+◌, ◌-◌, ◌<◌, ◌==◌, ◌∙◌, ◌≡◌, ◌≢◌, ◌≤◌,
}
use stardustos.Proc.{Proc}
use stardustos.Proc.Create.{drop_child, slot_from}

-- The loop stops at the first index that holds the value.
pub slot_from-first :
    (child : List ℕ) (v i n : ℕ) {j : ℕ}
    → slot_from child v i n ≡ some j
    → (i ≤ j)
      × (j < i + n)
      × (get_or child j 0 ≡ v)
      × ((k : ℕ) → i ≤ k → k < j → get_or child k 0 ≢ v)
unfolding slot_from
slot_from-first child v i zero h = absurd (cc)
slot_from-first child v i (suc n) {j} h = elim (Bool-cases (get_or child i 0 == v)) [
  | inl here ↦ (ground arith, ground arith, ground arith, λ k lo hi. absurd (ground arith))
  | inr not_here ↦
      let later : slot_from child v (i + 1) n ≡ some j = ground arith in
      let (lo, hi, holds, before) = slot_from-first child v (i + 1) n {j = j} later in
      (
        omega arith,
        omega arith,
        holds,
        λ k klo khi. elim (Bool-cases (i == k)) [
          | inl e ↦ λ is_v. ground arith
          | inr ne ↦ before k (ground arith) khi
        ],
      )
]

pub slot_from-none :
    (child : List ℕ) (v i n : ℕ)
    → ((k : ℕ) → i ≤ k → k < i + n → get_or child k 0 ≢ v)
    → slot_from child v i n ≡ none
unfolding slot_from
slot_from-none child v i zero absent = refl
slot_from-none child v i (suc n) absent = ground (
  arith,
  absent i (omega arith) (omega arith),
  slot_from-none child v (i + 1) n (λ k lo hi. absent k (omega arith) (omega arith)),
)

module _ {N : Type 0} where
  -- Dropping a child that is not the last one leaves the last one behind the shortened count, where
  -- its own removal no longer finds it.
  pub drop_child_hides_last :
      (q : Proc N) (pid last i : ℕ)
      → slot_from q.child pid 0 q.child_count ≡ some i
      → slot_from q.child last 0 q.child_count ≡ some (q.child_count - 1)
      → i < q.child_count - 1
      → last ≢ 0
      → (get_or (drop_child pid q).child (q.child_count - 1) 0 ≡ last)
        × ((drop_child pid q).child_count ≡ q.child_count - 1)
        × (drop_child last (drop_child pid q) ≡ drop_child pid q)
  unfolding drop_child
  drop_child_hides_last q pid last i at_i at_last before nonzero =
      let (_, _, holds, not_before) = slot_from-first q.child last 0 q.child_count at_last in
      let left : List ℕ = set q.child i 0 in
      let hidden : slot_from left last 0 (q.child_count - 1) ≡ none =
        slot_from-none left last 0 (q.child_count - 1) (λ k lo hi is_last.
          elim (Bool-cases (i == k)) [
            | inl e ↦ nonzero (
                sym is_last
                ∙ subst (λ j. get_or left j 0 ≡ 0) ((==_iff i k).0 e)
                    (get_or-set_default q.child i 0))
            | inr ne ↦
                not_before k lo (omega (arith, hi))
                  (sym (get_or-set_ne q.child {i = i} {j = k} 0 0 (ground arith)) ∙ is_last)
          ]) in
      (
        ground (arith, get_or-set_ne q.child {i = i} {j = q.child_count - 1} 0 0 (omega arith)),
        ground arith,
        ground (arith, hidden),
      )
