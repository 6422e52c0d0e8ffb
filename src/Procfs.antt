-- ===== src/Procfs.antt =====
-- newland/src/fs/procfs.c: a directory for each process, made when it is first asked for. `W` is
-- what the handlers of a node act on, a node is the address of its `fs_node_t`, and a `proc_t*`
-- is the process's id.
use stardustos.Prelude.{
  Bool, List, Option, Ret, [], codes, enoent, enomem, failed, if◌then◌else◌, leb, ltb, none, not,
  size_minus_one, some, str_eq, suc, true, value, zero, ℕ, ◌++◌, ◌+◌, ◌==◌, ◌>>=◌, ◌∷◌,
}
use stardustos.Libc.Formats.{digits}
use stardustos.Fs.{FsOpts, Node, Tables, fs_node_dir, mode_of}
use stardustos.Fs.Registry.{register_fs}
use stardustos.Fs.Files.{fs_node_create, is_negative}
use stardustos.Liblist.{liblist_add, liblist_get, liblist_indexof, liblist_length, liblist_remove}
use stardustos.Proc.{Procs, process_count, process_get}
pub mod Names
pub mod Cleanup
pub mod Children
pub mod Listing
pub mod Examples

-- `procs`, the nodes with their `impl`, the counter of `fs_node_create`, and what `kfree` was given.
pub record Nodes (W : Type 0) : Type 0 where
  pub procs : List ℕ
  pub node_at : ℕ → Node W
  pub impl : ℕ → Option ℕ
  pub next_inode : ℕ
  pub freed : List ℕ

-- `snprintf(name, NAME_MAX, "%lu", id)`: the `l` prints the number, and the `u` is text.
unfoldable pub number_name : ℕ → Option (List ℕ)
number_name id = digits id >>= λ s. some (s ++ (b'u' ∷ []))

-- The store of a node that `fs_node_create` made at the address `a`.
unfoldable pub store_node : {W : Type 0} → ℕ → Node W → ℕ → Nodes W → Nodes W
store_node a node next s = record s {
  node_at = λ b. if b == a then node else s.node_at b;
  next_inode = next;
}

-- `(*childptr)->impl = process_get(index);`
unfoldable pub set_impl : {W : Type 0} → ℕ → Option ℕ → Nodes W → Nodes W
set_impl a proc s = record s { impl = λ b. if b == a then proc else s.impl b }

unfoldable pub id_at : {N : Type 0} → Procs N → ℕ → Option ℕ
id_at table index = elim (process_get table index) [ none ↦ none | some p ↦ some p.id ]

module _ {W N : Type 0} (table : Procs N) where
  -- `node->impl == NULL || !!strcmp(name, node->name)`
  unfoldable pub is_stale : Nodes W → ℕ → List ℕ → Bool
  is_stale s node name = elim (s.impl node) [
    | none ↦ true
    | some _ ↦ not (str_eq name (s.node_at node).name)
  ]

  -- The body of the loop of `procfs_cleanup`; the name of a NULL process is a fault.
  unfoldable pub cleanup_one : Nodes W → ℕ → Option (Nodes W)
  unfolding is_stale
  cleanup_one s i =
      let node = liblist_get s.procs i in
      elim (process_get table i) [
        | none ↦ none
        | some proc ↦ number_name proc.id >>= λ name.
            if is_stale s node name
            then some (record s { procs = liblist_remove s.procs node; freed = node ∷ s.freed })
            else some s
      ]

  -- Its loop from `i` on: `i` goes up after a removal too.
  unfoldable pub cleanup_from : ℕ → Nodes W → ℕ → Option (Nodes W)
  cleanup_from zero s i = if ltb i (liblist_length s.procs) then none else some s
  cleanup_from (suc fuel) s i =
      let next = cleanup_one s i >>= λ s'. cleanup_from fuel s' (i + 1) in
      if ltb i (liblist_length s.procs) then next else some s

  unfoldable pub procfs_cleanup : Nodes W → Option (Nodes W)
  unfolding cleanup_from
  procfs_cleanup s =
      if liblist_length s.procs == process_count table
      then some s
      else cleanup_from (liblist_length s.procs) s 0

  -- The node for a process that has none. `fresh` is what `kmalloc` gives, the address with what is
  -- there, and `alloc` says whether `liblist_add` finds memory. The results are the number, the
  -- child and the nodes.
  unfoldable pub make_child :
      Option (ℕ × Node W) → Bool → ℕ → Nodes W → Option (Ret × Option ℕ × Nodes W)
  make_child none alloc index s = some (failed enomem, none, s)
  make_child (some (a, junk)) alloc index s = do
    name ← number_name index
    made ← fs_node_create (some junk) s.next_inode name (mode_of fs_node_dir)
    elim made.0 [
      | failed e ↦ some (failed e, none, s)
      | value ino ↦ elim made.2 [
        | none ↦ some (failed enomem, none, s)
        | some node ↦
            let stored = store_node a node made.1 s in
            let filled = set_impl a (id_at table index) stored in
            if is_negative ino
            then some (value ino, some a, stored)
            else elim (liblist_add s.procs alloc a).0 [
              | failed e ↦ some (failed e, some a, record filled { freed = a ∷ s.freed })
              | value _ ↦
                  some (value 0, some a, record filled { procs = (liblist_add s.procs alloc a).1 })
            ]
      ]
    ]

  unfoldable pub procfs_get_child :
      Option (ℕ × Node W) → Bool → Nodes W → ℕ → ℕ → Option ℕ → Option (Ret × Option ℕ × Nodes W)
  unfolding procfs_cleanup make_child
  procfs_get_child fresh alloc s node index child = procfs_cleanup s >>= λ s'.
      if not (liblist_indexof s'.procs node == size_minus_one)
      then some (failed enoent, child, s')
      else if leb (process_count table) index
      then some (failed enoent, child, s')
      else if liblist_get s'.procs index == 0
      then make_child fresh alloc index s'
      else some (value 0, some (liblist_get s'.procs index), s')

module _ {W : Type 0} (get_child : W → ℕ → ℕ → Ret × Option ℕ × W) where
  -- `procfs_mount`, which gives the root node its handler; `target` is where `targetptr` points.
  unfoldable pub procfs_mount :
      Option (ℕ × Node W) → Nodes W → Option ℕ → Option (Ret × Option ℕ × Nodes W)
  unfolding store_node
  procfs_mount none s target = some (failed enomem, none, s)
  procfs_mount (some (a, junk)) s target = do
    made ← fs_node_create (some junk) s.next_inode (b'/' ∷ []) (mode_of fs_node_dir)
    elim made.0 [
      | failed e ↦ some (failed e, target, s)
      | value ino ↦ elim made.2 [
        | none ↦ some (failed enomem, target, s)
        | some node ↦
            let served = record node { opts = record node.opts { get_child = some get_child } } in
            if is_negative ino
            then some (value ino, some a, store_node a node made.1 s)
            else some (value 0, some a, store_node a served made.1 s)
      ]
    ]

-- `procfs_umount` of the node at `target`.
unfoldable pub procfs_umount : {W : Type 0} → Nodes W → ℕ → Ret × Option ℕ × Nodes W
procfs_umount s target = (value 0, none, record s { freed = target ∷ s.freed })

-- `procfs_init`; FS_PSEUDO is 0.
unfoldable pub procfs_init : {W : Type 0} → Tables W → Bool → FsOpts W → Option (Ret × Tables W)
procfs_init t alloc procfs_opts = register_fs t alloc (codes "procfs") 0 procfs_opts
