-- ===== src/Procfs/Children.antt =====
-- procfs_get_child of newland/src/fs/procfs.c: the number of its nodes beside that of the
-- processes.
use stardustos.Prelude.{
  Bool, Bool-cases, Errno, List, Option, Ret, [], arith, eexist, enoent, enomem, failed, false, inl,
  inr, leb, length, ltb, none, refl, size_minus_one, some, strcpy_into, true, value, ℕ, ◌%◌, ◌+◌,
  ◌<◌, ◌==◌, ◌^◌, ◌∷◌, ◌≡◌, ◌⊎◌,
}
use stardustos.Procfs.Cleanup.{procfs_cleanup-shrinks}
use stardustos.Proc.Table.{ids}
use stardustos.Procfs.Names.{number_name_lem}
use stardustos.Liblist.{liblist_add, liblist_get, liblist_indexof}
use stardustos.Procfs.{Nodes, id_at, make_child, procfs_get_child, set_impl, store_node}
use stardustos.Proc.{AllBelow, Procs, process_count}
use stardustos.Fs.{Node, fs_node_dir, mode_of}
use stardustos.Fs.Files.{fs_node_create, is_negative}
use stardustos.Slist.{get_from}

get_from-zero :
    (n : ℕ) (list : List ℕ) (index i : ℕ)
    → AllBelow n list
    → index < i + 1
    → (elim (get_from list index i) as (λ _. ℕ) [ none ↦ 0 | some v ↦ v ]) ≡ 0
    → index + length list < i + 1
unfolding get_from
get_from-zero n [] index i b lo e = omega arith
get_from-zero n (v ∷ vs) index i b lo e = elim (Bool-cases (index == i)) [
  | inl same ↦ absurd (ground (arith, same, e, b.0))
  | inr other ↦ omega (arith, get_from-zero n vs (index + 1) i b.2 (ground arith) (rw other at e))
]

liblist_get-zero :
    (n : ℕ) (list : List ℕ) (i : ℕ) → AllBelow n list → liblist_get list i ≡ 0 → length list < i + 1
unfolding liblist_get
liblist_get-zero n list i b e = omega (arith, get_from-zero n list 0 i b (omega arith) e)

liblist_add-cases :
    (list : List ℕ) (alloc : Bool) (v : ℕ)
    → ((e : Errno) × (liblist_add list alloc v ≡ (failed e, list)))
      ⊎ (liblist_add list alloc v ≡ (value 0, v ∷ list))
unfolding liblist_add
liblist_add-cases list alloc v = elim (Bool-cases (liblist_indexof list v == size_minus_one)) [
  | inr there ↦ inl (eexist, rw there refl)
  | inl absent ↦ elim (Bool-cases alloc) [
    | inl room ↦ inr (rw (absent, room) refl)
    | inr full ↦ inl (enomem, rw (absent, full) refl)
  ]
]

module _ {W : Type 0} where
  pub fs_node_create-short :
      (junk : Node W) (next : ℕ) (name : List ℕ) (mode : ℕ)
      → length name < 128
      → fs_node_create (some junk) next name mode
        ≡ some (value next, (next + 1) % 2 ^ 32, some (record junk { name = name; mode = mode }))
  unfolding fs_node_create strcpy_into
  fs_node_create-short junk next name mode short =
      let one : ltb 128 (length name) ≡ false = ground arith in
      let two : ltb (length name) 128 ≡ true = ground arith in rw (one, two) refl

  -- What a call leaves of the nodes: a `Shrunk` list, or one with a node more.
  pub record Covers {N : Type 0} (table : Procs N) (s : Nodes W) : Type 0 where
    pub few : length s.procs < length table.processes + 1
    pub real : AllBelow (2 ^ 32) s.procs

module _ {W N : Type 0} (table : Procs N) where
  -- A new child is made for an index that has no node.
  make_child-Covers :
      (a : ℕ) (junk : Node W) (alloc : Bool) (index : ℕ) (s : Nodes W)
      → 0 < a
      → a < 2 ^ 32
      → index < length table.processes
      → index < 2 ^ 32
      → length s.procs < index + 1
      → AllBelow (2 ^ 32) s.procs
      → (r : Ret) × (c : Option ℕ) × (s' : Nodes W) × (make_child table
            (some (a, junk))
            alloc
            index
            s
          ≡ some (r, c, s'))
        × Covers table s'
  unfolding make_child store_node set_impl
  make_child-Covers a junk alloc index s pos word small bits few real =
      let (name, named, short) = number_name_lem index bits in
      let made = fs_node_create-short junk s.next_inode name (mode_of fs_node_dir) (omega arith) in
      let node = record junk { name = name; mode = mode_of fs_node_dir } in
      let stored = store_node a node ((s.next_inode + 1) % 2 ^ 32) s in
      let filled = set_impl a (id_at table index) stored in
      elim (Bool-cases (is_negative s.next_inode)) [
        | inl wrapped ↦ (
          value s.next_inode,
          some a,
          stored,
          rw (named, made, wrapped) refl,
          record { few = omega arith; real = real },
        )
        | inr fine ↦ elim (liblist_add-cases s.procs alloc a) [
          | inl (e, refused) ↦ (
            failed e,
            some a,
            record filled { freed = a ∷ s.freed },
            rw (named, made, fine, refused) refl,
            record { few = omega arith; real = real },
          )
          | inr added ↦ (
            value 0,
            some a,
            record filled { procs = a ∷ s.procs },
            rw (named, made, fine, added)
                (λ i. some (value 0, some a, record filled { procs = (added i).1 })),
            record { few = omega arith; real = (pos, word, real) },
          )
        ]
      ]

module _ {W N : Type 0} (table : Procs N) where
  -- Where `kmalloc` has memory for a node, the table's count is right, there are no more nodes than
  -- processes, and addresses and ids have 32 bits and are not 0, a call returns, and again there are
  -- no more nodes than processes.
  pub procfs_get_child-Covers :
      (alloc : Bool) (a : ℕ) (junk : Node W) (s : Nodes W) (node index : ℕ) (child : Option ℕ)
      → AllBelow (2 ^ 32) (ids table.processes)
      → process_count table ≡ length table.processes
      → length table.processes < 2 ^ 32
      → 0 < a
      → a < 2 ^ 32
      → Covers table s
      → (r : Ret) × (c : Option ℕ) × (s' : Nodes W) × (procfs_get_child table
            (some (a, junk))
            alloc
            s
            node
            index
            child
          ≡ some (r, c, s'))
        × Covers table s'
  unfolding procfs_get_child
  procfs_get_child-Covers alloc a junk s node index child ids_small counted few pos word covers =
      let (s1, cleaned, shrunk) = procfs_cleanup-shrinks table ids_small s covers.few in
      let covers1 : Covers table s1 = record {
        few = omega (arith, covers.few, shrunk.fewer);
        real = shrunk.kept covers.real;
      } in
      elim (Bool-cases (liblist_indexof s1.procs node == size_minus_one)) [
        | inr listed ↦ (failed enoent, child, s1, rw (cleaned, listed) refl, covers1)
        | inl root ↦ elim (Bool-cases (leb (process_count table) index)) [
          | inl past ↦ (failed enoent, child, s1, rw (cleaned, root, past) refl, covers1)
          | inr inside ↦ elim (Bool-cases (liblist_get s1.procs index == 0)) [
            | inr there ↦ (
              value 0,
              some (liblist_get s1.procs index),
              s1,
              rw (cleaned, root, inside, there) refl,
              covers1,
            )
            | inl absent ↦
                let below : index < length table.processes = ground (arith, inside, counted) in
                let (r, c, s2, made, covers2) =
                  make_child-Covers table a junk alloc index s1 pos word below (omega arith)
                    (liblist_get-zero (2 ^ 32) s1.procs index covers1.real (ground (arith, absent)))
                    covers1.real in
                (r, c, s2, rw (cleaned, root, inside, absent) made, covers2)
          ]
        ]
      ]
