-- ===== src/Proc/Table.antt =====
-- The process table of newland/arch/x86/src/proc.c: one process to an id, and what a write through
-- a `proc_t*` leaves as it was.
use stardustos.Slist.{find}
use stardustos.Prelude.{
  Bool-cases, List, Option, [], ap, arith, get_elem?, if◌then◌else◌, inl, inr, length, none, refl,
  some, suc, zero, ℕ, ◌<◌, ◌==◌, ◌∷◌, ◌≡◌,
}
use stardustos.Slist.Laws.{Unique}
use stardustos.Proc.{AllBelow, Proc, Procs, has_pid, modify}

module _ {N : Type 0} where
  abbrev pub ids : List (Proc N) → List ℕ
  ids [] = []
  ids (p ∷ ps) = p.id ∷ ids ps

  -- The ids are different and not 0, new ids are larger, and the count is right.
  pub record IsValid (s : Procs N) : Type 0 where
    pub distinct : Unique (λ (i : ℕ). i) ◌==◌ (ids s.processes)
    pub fresh : AllBelow s.next_pid (ids s.processes)
    pub counted : s.proc_count ≡ length s.processes
    pub positive : 0 < s.next_pid

  pub ids-modify :
      (pid : ℕ) (f : Proc N → Proc N) (ps : List (Proc N))
      → ((p : Proc N) → (f p).id ≡ p.id)
      → ids (modify pid f ps) ≡ ids ps
  unfolding modify
  ids-modify pid f [] same = refl
  ids-modify pid f (p ∷ ps) same = ground (arith, same p, ids-modify pid f ps same)

  pub length-ids : (ps : List (Proc N)) → length (ids ps) ≡ length ps
  length-ids [] = refl
  length-ids (p ∷ ps) = ap suc (length-ids ps)

  -- An id that stands at an index of the table is found, as the id of a process.
  pub find-ids :
      (ps : List (Proc N)) (i : ℕ) {pid : ℕ}
      → get_elem? (ids ps) i ≡ some pid
      → (p : Proc N) × (find (has_pid pid) ps ≡ some p) × (p.id ≡ pid)
  unfolding find
  find-ids [] i e = cc
  find-ids (p ∷ ps) zero {pid} e = (p, ground arith, ground arith)
  find-ids (p ∷ ps) (suc i) {pid} e =
      let (q, found, same) = find-ids ps i {pid = pid} e in
      elim (Bool-cases (p.id == pid)) [
        | inl h ↦ (p, rw h, ground arith)
        | inr h ↦ (q, rw h found, same)
      ]

pub AllBelow-get :
    (n : ℕ) (is : List ℕ) (k : ℕ) {i : ℕ}
    → AllBelow n is
    → get_elem? is k ≡ some i
    → (0 < i) × (i < n)
AllBelow-get n [] k b e = absurd (cc)
AllBelow-get n (j ∷ is) zero b e = ground arith
AllBelow-get n (j ∷ is) (suc k) {i} b e = AllBelow-get n is k {i = i} b.2 e

module _ {N : Type 0} where
  abbrev pub map_proc : (Proc N → Proc N) → Option (Proc N) → Option (Proc N)
  map_proc f none = none
  map_proc f (some p) = some (f p)

  -- A write through a `proc_t*` is seen under its id, and under no other.
  pub find-modify :
      (pid j : ℕ) (f : Proc N → Proc N) (ps : List (Proc N))
      → ((p : Proc N) → (f p).id ≡ p.id)
      → find (has_pid j) (modify pid f ps)
        ≡ (if pid == j then map_proc f (find (has_pid j) ps) else find (has_pid j) ps)
  unfolding find modify
  find-modify pid j f [] same = ground arith
  find-modify pid j f (p ∷ ps) same = ground (arith, same p, find-modify pid j f ps same)
