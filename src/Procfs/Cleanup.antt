-- ===== src/Procfs/Cleanup.antt =====
-- The loop of procfs_cleanup in newland/src/fs/procfs.c: which nodes it leaves.
use stardustos.Prelude.{
  Bool-cases, List, [], arith, inl, inr, length, ltb, refl, some, suc, zero, ℕ, ◌+◌, ◌<◌, ◌==◌, ◌^◌,
  ◌∷◌, ◌≡◌,
}
use stardustos.Proc.{AllBelow, Proc, Procs, process_count, process_get}
use stardustos.Proc.Table.{ids}
use stardustos.Liblist.{count_from, liblist_get, liblist_length, liblist_remove}
use stardustos.Slist.{get_from, remove}
use stardustos.Procfs.{Nodes, cleanup_from, cleanup_one, is_stale, procfs_cleanup}
use stardustos.Procfs.Names.{number_name_lem}

pub liblist_length_lem : (list : List ℕ) (i : ℕ) → count_from list i ≡ i + length list
unfolding count_from
liblist_length_lem [] i = omega arith
liblist_length_lem (n ∷ ns) i = omega (arith, liblist_length_lem ns (i + 1))

length-remove : (v : ℕ) (list : List ℕ) → length (remove (λ n. n == v) list) < length list + 1
unfolding remove
length-remove v [] = omega arith
length-remove v (n ∷ ns) = ground (arith, length-remove v ns)

AllBelow-remove :
    (n v : ℕ) (list : List ℕ) → AllBelow n list → AllBelow n (remove (λ n. n == v) list)
unfolding remove
AllBelow-remove n v [] b = b
AllBelow-remove n v (m ∷ ms) b = ground (arith, b, AllBelow-remove n v ms b.2)

-- No more nodes are listed, and none that was not.
pub record Shrunk (list list' : List ℕ) : Type 0 where
  pub fewer : length list' < length list + 1
  pub kept : AllBelow (2 ^ 32) list → AllBelow (2 ^ 32) list'

Shrunk-refl : (list : List ℕ) → Shrunk list list
Shrunk-refl list = record { fewer = omega arith; kept = λ h. h }

Shrunk-trans : {a b c : List ℕ} → Shrunk a b → Shrunk b c → Shrunk a c
Shrunk-trans ab bc = record {
  fewer = omega (arith, ab.fewer, bc.fewer);
  kept = λ h. bc.kept (ab.kept h);
}

module _ {N : Type 0} where
  get_from-below :
      (ps : List (Proc N)) (index i : ℕ)
      → index < i + 1
      → i < index + length ps
      → AllBelow (2 ^ 32) (ids ps)
      → (p : Proc N) × (get_from ps index i ≡ some p) × (p.id < 2 ^ 32)
  unfolding get_from
  get_from-below [] index i lo hi b = absurd (omega arith)
  get_from-below (p ∷ ps) index i lo hi b = elim (Bool-cases (index == i)) [
    | inl same ↦ (p, rw same refl, ground arith)
    | inr other ↦
        let (q, found, small) = get_from-below ps (index + 1) i (ground arith) (omega arith) b.2 in
        (q, rw other found, small)
  ]

  -- An index of the table has a process, and the process an id of 32 bits.
  pub process_get-below :
      (table : Procs N) (i : ℕ)
      → AllBelow (2 ^ 32) (ids table.processes)
      → i < length table.processes
      → (p : Proc N) × (process_get table i ≡ some p) × (p.id < 2 ^ 32)
  unfolding process_get
  process_get-below table i b small =
      get_from-below table.processes 0 i (omega arith) (omega arith) b

module _ {W N : Type 0} (table : Procs N) (b : AllBelow (2 ^ 32) (ids table.processes)) where
  -- One round returns, and lists no more nodes.
  cleanup_one-shrinks :
      (s : Nodes W) (i : ℕ)
      → i < length table.processes
      → (s' : Nodes W) × (cleanup_one table s i ≡ some s') × Shrunk s.procs s'.procs
  unfolding cleanup_one liblist_remove
  cleanup_one-shrinks s i small =
      let (p, found, word) = process_get-below table i b small in
      let (name, named, _) = number_name_lem p.id word in
      let node = liblist_get s.procs i in
      elim (Bool-cases (is_stale table s node name)) [
        | inl stale ↦ (
          record s { procs = liblist_remove s.procs node; freed = node ∷ s.freed },
          rw (found, named, stale, cleanup_one) refl,
          record {
            fewer = length-remove node s.procs;
            kept = AllBelow-remove (2 ^ 32) node s.procs;
          },
        )
        | inr kept ↦ (s, rw (found, named, kept, cleanup_one) refl, Shrunk-refl s.procs)
      ]

  cleanup_from-shrinks :
      (fuel : ℕ) (s : Nodes W) (i : ℕ)
      → length s.procs < i + fuel + 1
      → length s.procs < length table.processes + 1
      → (s' : Nodes W) × (cleanup_from table fuel s i ≡ some s') × Shrunk s.procs s'.procs
  unfolding cleanup_from liblist_length
  cleanup_from-shrinks zero s i enough covered = elim (Bool-cases (ltb i (count_from s.procs 0))) [
    | inl more ↦ absurd (ground (arith, liblist_length_lem s.procs 0))
    | inr done ↦ (s, rw done refl, Shrunk-refl s.procs)
  ]
  cleanup_from-shrinks (suc fuel) s i enough covered =
      elim (Bool-cases (ltb i (count_from s.procs 0))) [
        | inl more ↦
            let (s1, runs, less) =
              cleanup_one-shrinks s i (ground (arith, liblist_length_lem s.procs 0)) in
            let (s2, rest, fewer) =
              cleanup_from-shrinks fuel s1 (i + 1) (omega (arith, less.fewer))
                (omega (arith, less.fewer)) in
            (s2, rw (more, runs) rest, Shrunk-trans less fewer)
        | inr done ↦ (s, rw done refl, Shrunk-refl s.procs)
      ]

  -- procfs_cleanup returns where there are no more nodes than processes, and then lists no more of
  -- them.
  pub procfs_cleanup-shrinks :
      (s : Nodes W)
      → length s.procs < length table.processes + 1
      → (s' : Nodes W) × (procfs_cleanup table s ≡ some s') × Shrunk s.procs s'.procs
  unfolding procfs_cleanup liblist_length
  procfs_cleanup-shrinks s covered =
      elim (Bool-cases (count_from s.procs 0 == process_count table)) [
        | inl same ↦ (s, rw same refl, Shrunk-refl s.procs)
        | inr differ ↦
            let (s', runs, fewer) =
              cleanup_from-shrinks (count_from s.procs 0) s 0
                (omega (arith, liblist_length_lem s.procs 0)) covered in
            (s', rw differ runs, fewer)
      ]
