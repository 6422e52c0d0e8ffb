-- ===== src/Proc/Create.antt =====
-- Creating and removing processes in newland/arch/x86/src/proc.c. The memory allocator, the page
-- directories and the first terminal's name come as arguments; a process is named by its id.
use stardustos.Prelude.{
  Bool, List, Option, [], codes, false, get_or, if◌then◌else◌, ltb, name_max, none, not, path_max,
  replicate, set, some, suc, take, zero, ℕ, ◌%◌, ◌&&◌, ◌+◌, ◌-◌, ◌==◌, ◌>>=◌, ◌^◌, ◌∷◌,
}
use stardustos.Fs.{Fd}
use stardustos.Slist.{remove}
use stardustos.Proc.{
  Proc, Procs, child_max, has_pid, modify, open_max, proc_stacksize, process_frompid, ready,
}
pub mod Valid
pub mod Lookup
pub mod Destroy
pub mod Children
pub mod Cleanup

-- The loop over `child[0 .. child_count)` for a value, from index `i` with `n` rounds left.
unfoldable pub slot_from : List ℕ → ℕ → ℕ → ℕ → Option ℕ
slot_from child v i zero = none
slot_from child v i (suc n) =
    let rest = slot_from child v (i + 1) n in if get_or child i 0 == v then some i else rest

-- What the caller of `proc_create` passes, and what the other parts of the kernel hand it:
-- `kmalloc`, the address of the new stack, `tty_get(0)->name`, `mem_alloc_pgdir` and
-- `get_krnlpgdir`.
pub record Request : Type 0 where
  pub alloc : Bool
  pub stack : ℕ
  pub parent : Option ℕ
  pub name : List ℕ
  pub isuser : Bool
  pub tty0 : Option (List ℕ)
  pub pgdir : ℕ
  pub krnl_pgdir : ℕ

module _ {N : Type 0} where
  -- The index for a new child and the count that goes with it.
  unfoldable pub child_slot : Proc N → Option (ℕ × ℕ)
  unfolding slot_from
  child_slot q = elim (slot_from q.child 0 0 q.child_count) [
    | some i ↦ some (i, q.child_count)
    | none ↦
        if ltb child_max (q.child_count + 1) then none else some (q.child_count, q.child_count + 1)
  ]

  abbrev pub closed_fd : Fd N
  closed_fd = record { node = none; gid = 0; uid = 0; pid = 0; offset = 0; mode = 0 }

  -- The zeroed `proc_t` with the fields that do not depend on the parent.
  unfoldable pub fresh_proc : Request → ℕ → Proc N
  fresh_proc r pid = record {
    id = pid;
    name = take 256 r.name;
    cwd = codes "/";
    tty = elim r.tty0 [ none ↦ [] | some t ↦ take name_max t ];
    stack = r.stack;
    status = ready;
    isuser = r.isuser;
    issignaling = false;
    signum = 0;
    esp = (r.stack + proc_stacksize) % 2 ^ 32;
    cr3 = if r.isuser then r.pgdir else r.krnl_pgdir;
    signal_handler = false;
    fd = replicate open_max closed_fd;
    gid = 0;
    uid = 0;
    parent = 0;
    child = replicate child_max 0;
    child_count = 0;
  }

  unfoldable pub inherit : Proc N → Proc N → Proc N
  inherit q p = record p {
    cwd = take path_max q.cwd;
    tty = take name_max q.tty;
    gid = q.gid;
    uid = q.uid;
    parent = q.id;
  }

  -- `SLIST_INSERT_HEAD` and the counters.
  unfoldable pub insert : Procs N → Proc N → Procs N
  insert s p = record s {
    processes = p ∷ s.processes;
    next_pid = (s.next_pid + 1) % 2 ^ 32;
    proc_count = s.proc_count + 1;
    curr_pid = if s.proc_count + 1 == 1 && s.curr_pid == 0 then p.id else s.curr_pid;
  }

  abbrev pub adopt : ℕ → ℕ → ℕ → Proc N → Proc N
  adopt i count pid q = record q { child = set q.child i pid; child_count = count }

  -- The option in the result is the new process, or NULL; the outer one is a fault.
  unfoldable pub proc_create : Procs N → Request → Option (Option ℕ × Procs N)
  unfolding child_slot fresh_proc inherit insert
  proc_create s r = if not r.alloc then some (none, s) else (elim r.parent [
    | none ↦ some (some s.next_pid, insert s (fresh_proc r s.next_pid))
    | some pp ↦ elim (process_frompid s pp) [
      | none ↦ none
      | some q ↦ elim (child_slot q) [
        | none ↦ some (none, s)
        | some (i, count) ↦
            let ps = modify q.id (adopt i count s.next_pid) s.processes in
            some (
              some s.next_pid,
              insert (record s { processes = ps }) (inherit q (fresh_proc r s.next_pid)),
            )
      ]
    ]
  ])

  -- The nodes of the open descriptors, which are closed in this order.
  unfoldable pub open_nodes : List (Fd N) → List N
  open_nodes [] = []
  open_nodes (f ∷ fs) = elim f.node [ none ↦ open_nodes fs | some n ↦ n ∷ open_nodes fs ]

  unfoldable pub drop_child : ℕ → Proc N → Proc N
  unfolding slot_from
  drop_child pid q = elim (slot_from q.child pid 0 q.child_count) [
    | none ↦ q
    | some i ↦ record q { child = set q.child i 0; child_count = q.child_count - 1 }
  ]

  -- `parent` is NULL, and its `child_count` is read, where the parent is gone: a fault.
  unfoldable pub proc_destroy : Procs N → ℕ → Option (List N × Procs N)
  unfolding open_nodes drop_child
  proc_destroy s pid = do
    p ← process_frompid s pid
    ps ← if p.parent == 0 then some s.processes else (elim (process_frompid s p.parent) [
      | none ↦ none
      | some q ↦ some (modify q.id (drop_child pid) s.processes)
    ])
    some (
      open_nodes p.fd,
      record s { processes = remove (has_pid pid) ps; proc_count = s.proc_count - 1 },
    )
