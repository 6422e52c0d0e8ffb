-- ===== src/Procfs/Examples.antt =====
-- newland/src/fs/procfs.c with three processes: a listing, and a table that has lost a process.
use stardustos.Prelude.{
  List, Option, Ret, [], arith, codes, false, none, refl, some, str_eq, strcpy_into, true, value, ℕ,
  ◌∷◌, ◌≡◌,
}
use stardustos.Proc.{Proc, Procs, process_count, process_get, ready}
use stardustos.Fs.{Node, fs_node_dir, mode_of}
use stardustos.Liblist.{count_from, liblist_add, liblist_get, liblist_indexof, liblist_length}
use stardustos.Slist.{get_from, indexof_from}
use stardustos.Libc.Formats.{convert}
use stardustos.Fs.Files.{fs_node_create}
use stardustos.Procfs.{
  Nodes, cleanup_one, make_child, number_name, procfs_cleanup, procfs_get_child, procfs_mount,
  set_impl, store_node,
}
use stardustos.Procfs.Children.{Covers, procfs_get_child-Covers}
use stardustos.Procfs.Listing.{procfs_get_child-drops_last}

abbrev process : ℕ → Proc ℕ
process id = record {
  id = id;
  name = codes "sh";
  cwd = codes "/";
  tty = codes "tty0";
  stack = 65536;
  status = ready;
  isuser = true;
  issignaling = false;
  signum = 0;
  esp = 81920;
  cr3 = 0;
  signal_handler = false;
  fd = [];
  gid = 0;
  uid = 0;
  parent = 0;
  child = [];
  child_count = 0;
}

abbrev three : Procs ℕ
three = record {
  processes = process 3 ∷ process 2 ∷ process 1 ∷ [];
  next_pid = 4;
  curr_pid = 2;
  proc_count = 3;
  ticks = 0;
  sched_rec = [];
}

abbrev nobody : Procs ℕ
nobody = record three { processes = []; proc_count = 0 }

abbrev blank : Node ℕ
blank = record {
  name = [];
  mode = 0;
  size = 0;
  opts = record {
    open_node = none;
    close_node = none;
    get_child = none;
    read = none;
    write = none;
    ioctl = none;
  };
}

abbrev none_yet : Nodes ℕ
none_yet = record { procs = []; node_at = λ _. blank; impl = λ _. none; next_inode = 7; freed = [] }

-- The node at 4096 is named for the index 0.
abbrev first_listed : Nodes ℕ
first_listed = record {
  procs = 4096 ∷ [];
  node_at = λ _. record blank { name = codes "0u" };
  impl = λ _. some 3;
  next_inode = 8;
  freed = [];
}

abbrev child_name : Option (Ret × Option ℕ × Nodes ℕ) → Option (List ℕ)
child_name none = none
child_name (some (r, none, s)) = none
child_name (some (r, some c, s)) = some (s.node_at c).name

first_child :
    child_name (procfs_get_child three (some (4096, blank)) true none_yet 9 0 none)
    ≡ some (codes "0u")
unfolding procfs_get_child procfs_cleanup make_child number_name liblist_length count_from
    process_count liblist_indexof indexof_from liblist_get get_from convert fs_node_create
    strcpy_into liblist_add set_impl store_node
first_child = refl

-- A node without a process behind its index is a fault: the process at index 0 is NULL.
cleanup_reads_null : procfs_cleanup nobody first_listed ≡ none
unfolding procfs_cleanup liblist_length count_from process_count cleanup_one process_get get_from
cleanup_reads_null = refl

root_name :
    child_name (procfs_mount (λ w _ _. (value 0, none, w)) (some (9, blank)) none_yet none)
    ≡ some (codes "/")
unfolding procfs_mount fs_node_create strcpy_into store_node
root_name = refl

procfs_get_child-Covers_example :
    (r : Ret) × (c : Option ℕ) × (s' : Nodes ℕ) × (procfs_get_child three
        (some (8192, blank))
        true
        first_listed
        9
        1
        none
      ≡ some (r, c, s'))
    × Covers three s'
unfolding process_count
procfs_get_child-Covers_example =
    procfs_get_child-Covers three true 8192 blank first_listed 9 1 none
      (omega arith, omega arith, (omega arith, omega arith, (omega arith, omega arith, record {})))
      refl (omega arith) (omega arith) (omega arith)
      (record { few = omega arith; real = (omega arith, omega arith, record {}) })

procfs_get_child-drops_last_example :
    (new : List ℕ) × (s' : Nodes ℕ) × (number_name 1 ≡ some new)
    × (procfs_get_child three (some (8192, blank)) true first_listed 9 1 none
        ≡ some (value 0, some 8192, s'))
    × (s'.procs ≡ 8192 ∷ [])
    × (s'.freed ≡ 4096 ∷ [])
    × (s'.node_at 8192 ≡ record blank { name = new; mode = mode_of fs_node_dir })
unfolding number_name str_eq convert process_count process_get get_from
procfs_get_child-drops_last_example =
    procfs_get_child-drops_last three first_listed 4096 8192 blank 9 1 none {p = process 3}
      {name = codes "3u"} (omega arith) refl refl refl (omega arith) (omega arith) (omega arith)
