-- ===== src/Procfs/Listing.antt =====
-- A listing of newland/src/fs/procfs.c: what a call does to the child that the call before it gave.
use stardustos.Prelude.{
  List, Option, Option-cases, [], arith, false, inl, inr, leb, refl, some, str_eq, true, value, ℕ,
  ◌%◌, ◌+◌, ◌<◌, ◌==◌, ◌^◌, ◌∷◌, ◌≡◌,
}
use stardustos.Proc.{Proc, Procs, process_count, process_get}
use stardustos.Fs.{Node, fs_node_dir, mode_of}
use stardustos.Fs.Files.{is_negative}
use stardustos.Liblist.{
  count_from, liblist_add, liblist_get, liblist_indexof, liblist_length, liblist_remove,
}
use stardustos.Slist.{get_from, indexof_from, remove}
use stardustos.Procfs.{
  Nodes, cleanup_from, cleanup_one, id_at, is_stale, make_child, number_name, procfs_cleanup,
  procfs_get_child, set_impl, store_node,
}
use stardustos.Procfs.Names.{number_name_lem}
use stardustos.Procfs.Children.{fs_node_create-short}

module _ {W N : Type 0} (table : Procs N) (s : Nodes W) (n : ℕ) where
  abbrev pub only : Nodes W
  only = record s { procs = n ∷ [] }

  abbrev pub emptied : Nodes W
  emptied = record s { procs = []; freed = n ∷ s.freed }

  is_stale-differs :
      (name : List ℕ) → str_eq name (s.node_at n).name ≡ false → is_stale table only n name ≡ true
  unfolding is_stale
  is_stale-differs name differs = elim (Option-cases (s.impl n)) [
    | inl null ↦ rw (null, is_stale) refl
    | inr (q, e) ↦ rw (e, differs, is_stale) refl
  ]

  cleanup_one-drops :
      {p : Proc N} {name : List ℕ}
      → process_get table 0 ≡ some p
      → number_name p.id ≡ some name
      → str_eq name (s.node_at n).name ≡ false
      → cleanup_one table only 0 ≡ some emptied
  unfolding cleanup_one liblist_get get_from liblist_remove remove
  cleanup_one-drops {p} {name} newest named differs =
      let stale = is_stale-differs name differs in
      let same : (n == n) ≡ true = ground arith in rw (newest, named, stale, same, cleanup_one) refl

  -- The cleanup frees the one node that is listed, where there are more processes and the newest has
  -- another name.
  procfs_cleanup-one :
      {p : Proc N} {name : List ℕ}
      → 1 < process_count table
      → process_get table 0 ≡ some p
      → number_name p.id ≡ some name
      → str_eq name (s.node_at n).name ≡ false
      → procfs_cleanup table only ≡ some emptied
  unfolding procfs_cleanup liblist_length count_from cleanup_from
  procfs_cleanup-one {p} {name} more newest named differs =
      let count : (1 == process_count table) ≡ false = ground arith in
      rw (count, cleanup_one-drops {p = p} {name = name} newest named differs) refl

  -- Where one node is listed, there are more processes, the newest of them has another name than the
  -- node, there is memory, and the inode's number is not negative, a call for a process of the table
  -- frees that node, and lists a new one alone, a directory with the name of the index.
  pub procfs_get_child-drops_last :
      (a : ℕ) (junk : Node W) (node index : ℕ) (child : Option ℕ) {p : Proc N} {name : List ℕ}
      → 1 < process_count table
      → process_get table 0 ≡ some p
      → number_name p.id ≡ some name
      → str_eq name (s.node_at n).name ≡ false
      → index < process_count table
      → index < 2 ^ 32
      → s.next_inode < 2 ^ 31
      → (new : List ℕ) × (s' : Nodes W) × (number_name index ≡ some new)
        × (procfs_get_child table (some (a, junk)) true only node index child
            ≡ some (value 0, some a, s'))
        × (s'.procs ≡ a ∷ [])
        × (s'.freed ≡ n ∷ s.freed)
        × (s'.node_at a ≡ record junk { name = new; mode = mode_of fs_node_dir })
  unfolding procfs_get_child make_child store_node set_impl liblist_indexof indexof_from liblist_get
      get_from liblist_add
  procfs_get_child-drops_last a junk node index child {p} {name} more newest named differs inside
        bits inodes =
      let cleaned = procfs_cleanup-one {p = p} {name = name} more newest named differs in
      let (new, made_name, short) = number_name_lem index bits in
      let made = fs_node_create-short junk s.next_inode new (mode_of fs_node_dir) (omega arith) in
      let dir = record junk { name = new; mode = mode_of fs_node_dir } in
      let below : leb (process_count table) index ≡ false = ground arith in
      let fine : is_negative s.next_inode ≡ false = ground arith in
      let stored = store_node a dir ((s.next_inode + 1) % 2 ^ 32) emptied in
      let filled = set_impl a (id_at table index) stored in
      let same : (a == a) ≡ true = ground arith in
      (
        new,
        record filled { procs = a ∷ [] },
        made_name,
        rw (cleaned, below, made_name, made, fine) refl,
        refl,
        refl,
        rw same refl,
      )
