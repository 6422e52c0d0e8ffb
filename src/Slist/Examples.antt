-- ===== src/Slist/Examples.antt =====
-- The lists of libraries/liblist/include/liblist.h on concrete nodes.
use stardustos.Prelude.{List, [], arith, if◌then◌else◌, refl, some, ℕ, ◌==◌, ◌∷◌, ◌≡◌}
use stardustos.Slist.{find, remove}
use stardustos.Slist.Chain.{Chain, Op, inserts, removes, run, slist_foreach, slist_init}
use stardustos.Slist.Chain.Links.{Holds, slist_foreach-eq-find}
use stardustos.Slist.Chain.Refines.{replay, run-refines-replay}

-- Three nodes come, the middle one goes, and the first comes again.
abbrev some_ops : List Op
some_ops = inserts 40 ∷ inserts 80 ∷ inserts 120 ∷ removes 80 ∷ removes 40 ∷ inserts 80 ∷ []

abbrev empty_chain : Chain
empty_chain = slist_init (λ x. 0)

run-refines-replay_example :
    (c' : Chain) × (run 6 some_ops empty_chain ≡ some c') × Holds c' (80 ∷ 120 ∷ [])
unfolding replay find remove
run-refines-replay_example =
    run-refines-replay some_ops 6 empty_chain [] {ys = 80 ∷ 120 ∷ []} (refl, tt) (omega arith) refl

abbrev two_next : ℕ → ℕ
two_next x = if x == 40 then 80 else 0

slist_foreach-eq-find_example :
    slist_foreach 3 two_next (λ x. x == 80) 40 ≡ some (find (λ x. x == 80) (40 ∷ 80 ∷ []))
slist_foreach-eq-find_example =
    slist_foreach-eq-find 3 two_next (λ x. x == 80) 40 (40 ∷ 80 ∷ [])
      (refl, omega arith, (refl, omega arith, refl)) (omega arith)
