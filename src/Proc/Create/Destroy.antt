-- ===== src/Proc/Create/Destroy.antt =====
-- `proc_destroy` of newland/arch/x86/src/proc.c.
use stardustos.Proc.Create.Lookup.{frompid-id, frompid-modify_ne}
use stardustos.Proc.Create.Valid.{modify-IsValid}
use stardustos.Slist.Laws.{Unique, Unique-remove, find-remove_ne, find-remove_self, length-remove}
use stardustos.Slist.{find, remove}
use stardustos.Prelude.{
  ==_iff, Bool, Bool-cases, List, Option-cases, [], arith, false, inl, inr, is_some, ne→==, none,
  refl, some, sym, true, ℕ, ◌+◌, ◌-◌, ◌==◌, ◌∙◌, ◌∷◌, ◌≡◌, ◌≢◌, ◌⊎◌,
}
use stardustos.Proc.{AllBelow, Proc, Procs, has_pid, modify, process_count, process_frompid}
use stardustos.Proc.Table.{IsValid, find-modify, ids}
use stardustos.Proc.Create.{drop_child, open_nodes, proc_destroy}

AllBelow-remove :
    (n : ℕ) (test : ℕ → Bool) (is : List ℕ) → AllBelow n is → AllBelow n (remove test is)
unfolding remove
AllBelow-remove n test [] b = tt
AllBelow-remove n test (i ∷ is) b = elim (Bool-cases (test i)) [
  | inl e ↦ rw e b.2
  | inr e ↦ rw e (b.0, b.1, AllBelow-remove n test is b.2)
]

module _ {N : Type 0} where
  ids-remove :
      (pid : ℕ) (ps : List (Proc N))
      → ids (remove (has_pid pid) ps) ≡ remove (λ j. j == pid) (ids ps)
  unfolding remove
  ids-remove pid [] = refl
  ids-remove pid (p ∷ ps) = ground (arith, ids-remove pid ps)

  find-ids-none :
      (pid : ℕ) (ps : List (Proc N))
      → find (λ j. j == pid) (ids ps) ≡ none
      → find (has_pid pid) ps ≡ none
  unfolding find
  find-ids-none pid [] h = refl
  find-ids-none pid (p ∷ ps) h = ground (arith, find-ids-none pid ps)

  Unique-processes :
      (ps : List (Proc N))
      → Unique (λ (i : ℕ). i) ◌==◌ (ids ps)
      → Unique (λ (p : Proc N). p.id) ◌==◌ ps
  Unique-processes [] u = tt
  Unique-processes (p ∷ ps) u = (find-ids-none p.id ps u.0, Unique-processes ps u.1)

  abbrev removed : Procs N → ℕ → Procs N
  removed t pid = record t {
    processes = remove (has_pid pid) t.processes;
    proc_count = t.proc_count - 1;
  }

  module _ (t : Procs N) (pid : ℕ) (v : IsValid t) where
    removed-IsValid : is_some (process_frompid t pid) ≡ true → IsValid (removed t pid)
    unfolding process_frompid
    removed-IsValid known = record {
      distinct =
          rw (ids-remove pid t.processes)
            (Unique-remove (λ (i : ℕ). i) ◌==◌ _ (ids t.processes) v.distinct);
      fresh =
          rw (ids-remove pid t.processes) (AllBelow-remove t.next_pid _ (ids t.processes) v.fresh);
      counted = omega (arith, v.counted, length-remove (has_pid pid) t.processes known);
      positive = v.positive;
    }

    removed-gone : process_frompid (removed t pid) pid ≡ none
    unfolding process_frompid
    removed-gone =
        find-remove_self (λ (p : Proc N). p.id) ◌==◌ ==_iff pid t.processes
          (Unique-processes t.processes v.distinct)

    removed-kept : (j : ℕ) → j ≢ pid → process_frompid (removed t pid) j ≡ process_frompid t j
    unfolding process_frompid
    removed-kept j ne =
        find-remove_ne (λ (p : Proc N). p.id) ◌==◌ ==_iff j pid t.processes (ne→== j pid ne)

    removed-count :
        is_some (process_frompid t pid) ≡ true → process_count (removed t pid) + 1 ≡ process_count t
    unfolding process_count process_frompid
    removed-count known = omega (arith, v.counted, length-remove (has_pid pid) t.processes known)

  -- A process whose parent is gone cannot be removed: the parent's record is read through NULL.
  pub proc_destroy_orphan :
      (s : Procs N) (pid : ℕ) (p : Proc N)
      → process_frompid s pid ≡ some p
      → p.parent ≢ 0
      → process_frompid s p.parent ≡ none
      → proc_destroy s pid ≡ none
  unfolding proc_destroy
  proc_destroy_orphan s pid p known child gone = ground arith

  drop_child-id : (pid : ℕ) (q : Proc N) → (drop_child pid q).id ≡ q.id
  unfolding drop_child
  drop_child-id pid q = ground arith

  frompid-modify_some :
      (s : Procs N) (pid j : ℕ) (f : Proc N → Proc N)
      → ((p : Proc N) → (f p).id ≡ p.id)
      → is_some (process_frompid s j) ≡ true
      → is_some (process_frompid (record s { processes = modify pid f s.processes }) j) ≡ true
  unfolding process_frompid
  frompid-modify_some s pid j f same h = ground (arith, find-modify pid j f s.processes same)

  proc_destroy_root :
      (s : Procs N) (pid : ℕ) (p : Proc N)
      → process_frompid s pid ≡ some p
      → p.parent ≡ 0
      → proc_destroy s pid ≡ some (open_nodes p.fd, removed s pid)
  unfolding proc_destroy
  proc_destroy_root s pid p known root = ground arith

  proc_destroy_child :
      (s : Procs N) (pid : ℕ) (p q : Proc N)
      → process_frompid s pid ≡ some p
      → (p.parent == 0) ≡ false
      → process_frompid s p.parent ≡ some q
      → proc_destroy s pid
        ≡ some (
          open_nodes p.fd,
          removed (record s { processes = modify q.id (drop_child pid) s.processes }) pid,
        )
  unfolding proc_destroy
  proc_destroy_child s pid p q known child held = ground arith

  -- A removal that succeeds, closes the open nodes and takes out one process.
  abbrev Removes : Procs N → ℕ → Proc N → Type 0
  Removes s pid p =
      (s' : Procs N) × (proc_destroy s pid ≡ some (open_nodes p.fd, s'))
      × (process_frompid s' pid ≡ none)
      × (process_count s' + 1 ≡ process_count s)
      × ((j : ℕ) → j ≢ pid → j ≢ p.parent → process_frompid s' j ≡ process_frompid s j)
      × IsValid s'

  destroy_root :
      (s : Procs N) (pid : ℕ) (p : Proc N)
      → IsValid s
      → process_frompid s pid ≡ some p
      → p.parent ≡ 0
      → Removes s pid p
  destroy_root s pid p v known root =
      let found : is_some (process_frompid s pid) ≡ true = rw known in
      (
        removed s pid,
        proc_destroy_root s pid p known root,
        removed-gone s pid v,
        removed-count s pid v found,
        λ j ne _. removed-kept s pid v j ne,
        removed-IsValid s pid v found,
      )

  -- In a valid table a process that has no parent, or whose parent is there, is removed: it is gone,
  -- its open nodes are the ones closed, the count falls by one, all but the parent are as they were,
  -- and the table stays valid.
  pub proc_destroy-frompid :
      (s : Procs N) (pid : ℕ) (p : Proc N)
      → IsValid s
      → process_frompid s pid ≡ some p
      → (p.parent ≡ 0) ⊎ (is_some (process_frompid s p.parent) ≡ true)
      → (s' : Procs N) × (proc_destroy s pid ≡ some (open_nodes p.fd, s'))
        × (process_frompid s' pid ≡ none)
        × (process_count s' + 1 ≡ process_count s)
        × ((j : ℕ) → j ≢ pid → j ≢ p.parent → process_frompid s' j ≡ process_frompid s j)
        × IsValid s'
  unfolding process_count
  proc_destroy-frompid s pid p v known (inl root) = destroy_root s pid p v known root
  proc_destroy-frompid s pid p v known (inr anchored) =
      elim (Option-cases (process_frompid s p.parent)) [
        | inl gone ↦ absurd (cc)
        | inr (q, held) ↦ elim (Bool-cases (p.parent == 0)) [
          | inl root ↦ destroy_root s pid p v known ((==_iff p.parent 0).0 root)
          | inr child ↦
              let t : Procs N = record s { processes = modify q.id (drop_child pid) s.processes } in
              let vt : IsValid t = modify-IsValid s q.id (drop_child pid) (drop_child-id pid) v in
              let q_id : q.id ≡ p.parent = frompid-id s p.parent q held in
              let found : is_some (process_frompid t pid) ≡ true =
                frompid-modify_some s q.id pid (drop_child pid) (drop_child-id pid) (rw known) in
              (
                removed t pid,
                proc_destroy_child s pid p q known child held,
                removed-gone t pid vt,
                removed-count t pid vt found,
                λ j ne other.
                    removed-kept t pid vt j ne
                    ∙ frompid-modify_ne s q.id j (drop_child pid) (drop_child-id pid)
                        (λ e. other (sym e ∙ q_id)),
                removed-IsValid t pid vt found,
              )
        ]
      ]
