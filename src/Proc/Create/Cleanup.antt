-- ===== src/Proc/Create/Cleanup.antt =====
-- `processes_cleanup` and `proc_switch_pgdir` of newland/arch/x86/src/proc.c. The loop goes on
-- from the link of the process that was freed, which still holds the next one.
use stardustos.Proc.Create.Destroy.{proc_destroy-frompid}
use stardustos.Slist.{find}
use stardustos.Proc.Table.{IsValid, ids}
use stardustos.Prelude.{
  Bool, Bool-cases, List, Option, [], ap, arith, false, if◌then◌else◌, inl, inr, none, refl, some,
  sym, true, ℕ, ◌&&◌, ◌++◌, ◌==◌, ◌>>=◌, ◌∙◌, ◌∷◌, ◌≡◌, ◌≢◌,
}
use stardustos.Proc.{
  AllBelow, Proc, Procs, Status, finished, has_pid, process_frompid, ready, running, zombie,
}
use stardustos.Proc.Create.{open_nodes, proc_destroy}

unfoldable pub is_zombie : Status → Bool
is_zombie zombie = true
is_zombie finished = false
is_zombie running = false
is_zombie ready = false

module _ {N : Type 0} where
  -- The old page directory, and the process with the new one.
  unfoldable pub proc_switch_pgdir : Proc N → ℕ → ℕ × Proc N
  proc_switch_pgdir p pgdir = (p.cr3, record p { cr3 = pgdir })

  -- The nodes that are closed, and the table.
  unfoldable pub cleanup_from : Procs N → List (Proc N) → Option (List N × Procs N)
  cleanup_from s [] = some ([], s)
  cleanup_from s (p ∷ ps) = elim (is_zombie p.status) [
    | false ↦ cleanup_from s ps
    | true ↦ proc_destroy s p.id >>= λ done.
        cleanup_from done.1 ps >>= λ rest. some (done.0 ++ rest.0, rest.1)
  ]

  unfoldable pub processes_cleanup : Procs N → Option (List N × Procs N)
  processes_cleanup s = cleanup_from s s.processes

  -- The processes of a list are in the table, once each, and its zombies have no parent.
  abbrev pub AreRoots : Procs N → List (Proc N) → Type 0
  AreRoots s [] = Unit
  AreRoots s (p ∷ ps) =
      (process_frompid s p.id ≡ some p)
      × ((is_zombie p.status ≡ true) → p.parent ≡ 0)
      × (find (has_pid p.id) ps ≡ none)
      × AreRoots s ps

  -- What is left of a process with an id.
  abbrev pub survivor : ℕ → List (Proc N) → Option (Proc N) → Option (Proc N)
  survivor j [] o = o
  survivor j (p ∷ ps) o = survivor j ps (if is_zombie p.status && p.id == j then none else o)

  AreRoots-ext :
      (s s' : Procs N) (pid : ℕ) (ps : List (Proc N))
      → ((j : ℕ) → j ≢ pid → process_frompid s' j ≡ process_frompid s j)
      → find (has_pid pid) ps ≡ none
      → AreRoots s ps
      → AreRoots s' ps
  unfolding find
  AreRoots-ext s s' pid [] same absent roots = roots
  AreRoots-ext s s' pid (p ∷ ps) same absent (found, root, once, rest) =
      let other : p.id ≢ pid = ground arith in
      let behind : find (has_pid pid) ps ≡ none = ground arith in
      (same p.id other ∙ found, root, once, AreRoots-ext s s' pid ps same behind rest)

  find-zero : (n : ℕ) (ps : List (Proc N)) → AllBelow n (ids ps) → find (has_pid 0) ps ≡ none
  unfolding find
  find-zero n [] below = refl
  find-zero n (p ∷ ps) below = ground (arith, find-zero n ps below.2)

  cleanup_from-alive :
      (s : Procs N) (p : Proc N) (ps : List (Proc N))
      → is_zombie p.status ≡ false
      → cleanup_from s (p ∷ ps) ≡ cleanup_from s ps
  unfolding cleanup_from
  cleanup_from-alive s p ps alive = ground (arith, alive)

  cleanup_from-dead :
      (s s1 s2 : Procs N) (p : Proc N) (ps : List (Proc N)) (o1 o2 : List N)
      → is_zombie p.status ≡ true
      → proc_destroy s p.id ≡ some (o1, s1)
      → cleanup_from s1 ps ≡ some (o2, s2)
      → cleanup_from s (p ∷ ps) ≡ some (o1 ++ o2, s2)
  unfolding cleanup_from
  cleanup_from-dead s s1 s2 p ps o1 o2 dead destroyed cleaned =
      ground (arith, dead, destroyed, cleaned)

  cleanup_from-nil : (s : Procs N) → cleanup_from s [] ≡ some ([], s)
  unfolding cleanup_from
  cleanup_from-nil s = refl

  zombie_gone :
      (s s1 : Procs N) (p : Proc N) (j : ℕ)
      → is_zombie p.status ≡ true
      → process_frompid s1 p.id ≡ none
      → (j ≢ p.id → process_frompid s1 j ≡ process_frompid s j)
      → process_frompid s1 j
        ≡ (if is_zombie p.status && p.id == j then none else process_frompid s j)
  zombie_gone s s1 p j dead gone same = elim (Bool-cases (p.id == j)) [
    | inl is ↦
        let here : p.id ≡ j = ground arith in
        rw (dead, is) (ap (process_frompid s1) (sym here) ∙ gone)
    | inr other ↦ rw (dead, other) (same (ground arith))
  ]

  cleanup_from-survivor :
      (s : Procs N) (ps : List (Proc N))
      → IsValid s
      → AreRoots s ps
      → (out : List N) × (s' : Procs N) × (cleanup_from s ps ≡ some (out, s'))
        × IsValid s'
        × ((j : ℕ) → process_frompid s' j ≡ survivor j ps (process_frompid s j))
  unfolding process_frompid
  cleanup_from-survivor s [] v roots = ([], s, cleanup_from-nil s, v, λ j. refl)
  cleanup_from-survivor s (p ∷ ps) v (found, root, once, rest) =
      elim (Bool-cases (is_zombie p.status)) [
        | inr alive ↦
            let (out, s', runs, v', holds) = cleanup_from-survivor s ps v rest in
            (out, s', cleanup_from-alive s p ps alive ∙ runs, v', λ j. rw alive (holds j))
        | inl dead ↦
            let (s1, ran, gone, count, same, v1) =
              proc_destroy-frompid s p.id p v found (inl (root dead)) in
            let same' : (j : ℕ) → j ≢ p.id → process_frompid s1 j ≡ process_frompid s j = λ j ne.
              elim (Bool-cases (j == 0)) [
                | inl is ↦ ground (
                  arith,
                  is,
                  find-zero s.next_pid s.processes v.fresh,
                  find-zero s1.next_pid s1.processes v1.fresh,
                )
                | inr not_zero ↦ same j ne (ground (arith, root dead))
              ] in
            let (out, s', runs, v', holds) =
              cleanup_from-survivor s1 ps v1 (AreRoots-ext s s1 p.id ps same' once rest) in
            (
              open_nodes p.fd ++ out,
              s',
              cleanup_from-dead s s1 s' p ps (open_nodes p.fd) out dead ran runs,
              v',
              λ j. holds j ∙ ap (survivor j ps) (zombie_gone s s1 p j dead gone (same' j)),
            )
      ]

  -- In a valid table whose zombies have no parent, `processes_cleanup` removes the zombies and leaves
  -- every other process as it was.
  pub processes_cleanup-survivor :
      (s : Procs N)
      → IsValid s
      → AreRoots s s.processes
      → (out : List N) × (s' : Procs N) × (processes_cleanup s ≡ some (out, s'))
        × IsValid s'
        × ((j : ℕ) → process_frompid s' j ≡ survivor j s.processes (process_frompid s j))
  unfolding processes_cleanup
  processes_cleanup-survivor s v roots = cleanup_from-survivor s s.processes v roots
