-- ===== src/Nvk.antt =====
-- tools/nvk/src/proc.c: the processes of the kernel that runs as a host program, in threads. A
-- `proc_t*` is the process's id, an entry function the number of a function of the host, and `impl`
-- an address; the stack is the thread's own.
use stardustos.Prelude.{
  Bool, List, Option, [], codes, if◌then◌else◌, ltb, name_max, none, not, path_max, replicate, set,
  some, take, ℕ, ◌%◌, ◌&&◌, ◌+◌, ◌-◌, ◌==◌, ◌>>=◌, ◌^◌, ◌||◌, ◌∷◌,
}
use stardustos.Slist.{find, get_from, remove}
use stardustos.Proc.{Status, ready, zombie}
use stardustos.Proc.Create.{slot_from}
pub mod Lookup
pub mod Exec
pub mod Running
pub mod Reading
pub mod Examples

-- CHILD_MAX of nvk/proc.h
abbrev pub child_max : ℕ
child_max = 128

-- `proc_t`
pub record Proc : Type 0 where
  pub id : ℕ
  pub name : List ℕ
  pub tty : List ℕ
  pub cwd : List ℕ
  pub status : Status
  pub isuser : Bool
  pub gid : ℕ
  pub uid : ℕ
  pub parent : ℕ
  pub child : List ℕ
  pub child_count : ℕ
  pub entry : Option ℕ
  pub impl : ℕ
  pub prog : Option (List ℕ)
  pub prgsize : ℕ

pub record Procs : Type 0 where
  pub processes : List Proc
  pub next_pid : ℕ
  pub curr_pid : ℕ
  pub proc_count : ℕ

abbrev pub has_pid : ℕ → Proc → Bool
has_pid pid p = p.id == pid

-- A write through the `proc_t*` of a process.
unfoldable pub write_proc : ℕ → (Proc → Proc) → List Proc → List Proc
write_proc pid f [] = []
write_proc pid f (p ∷ ps) = if p.id == pid then f p ∷ ps else p ∷ write_proc pid f ps

abbrev pub write : ℕ → (Proc → Proc) → Procs → Procs
write pid f s = record s { processes = write_proc pid f s.processes }

-- SLIST_FIRST, and SLIST_NEXT of the process with an id.
abbrev pub first : List Proc → Option Proc
first [] = none
first (p ∷ ps) = some p

unfoldable pub next_of : ℕ → List Proc → Option Proc
next_of pid [] = none
next_of pid (p ∷ ps) = if p.id == pid then first ps else next_of pid ps

unfoldable pub process_count : Procs → ℕ
process_count s = s.proc_count

unfoldable pub process_get : Procs → ℕ → Option Proc
process_get s i = get_from s.processes 0 i

unfoldable pub process_frompid : Procs → ℕ → Option Proc
process_frompid s pid = find (has_pid pid) s.processes

unfoldable pub process_curr : Procs → Option Proc
unfolding process_frompid
process_curr s = if s.proc_count == 0 || s.curr_pid == 0 then none else process_frompid s s.curr_pid

unfoldable pub process_next : Procs → Option Proc
unfolding process_frompid next_of
process_next s =
    if s.proc_count == 0 || s.curr_pid == 0 then none else (elim (process_frompid s s.curr_pid) [
      | none ↦ first s.processes
      | some _ ↦ elim (next_of s.curr_pid s.processes) [
        | some q ↦ some q
        | none ↦ first s.processes
      ]
    ])

-- The arguments, `malloc`, and the name of the first terminal.
pub record Request : Type 0 where
  pub alloc : Bool
  pub parent : Option ℕ
  pub name : List ℕ
  pub isuser : Bool
  pub tty0 : Option (List ℕ)

-- The index for a new child and the count that goes with it.
unfoldable pub child_slot : Proc → Option (ℕ × ℕ)
child_slot q = elim (slot_from q.child 0 0 q.child_count) [
  | some i ↦ some (i, q.child_count)
  | none ↦
      if ltb child_max (q.child_count + 1) then none else some (q.child_count, q.child_count + 1)
]

-- The zeroed `proc_t` with what does not come from the parent.
unfoldable pub fresh_proc : Request → ℕ → Proc
fresh_proc r pid = record {
  id = pid;
  name = take name_max r.name;
  tty = elim r.tty0 [ none ↦ [] | some t ↦ take name_max t ];
  cwd = codes "/";
  status = ready;
  isuser = r.isuser;
  gid = 0;
  uid = 0;
  parent = 0;
  child = replicate child_max 0;
  child_count = 0;
  entry = none;
  impl = 0;
  prog = none;
  prgsize = 0;
}

unfoldable pub inherit : Proc → Proc → Proc
inherit q p = record p {
  cwd = take path_max q.cwd;
  tty = take name_max q.tty;
  gid = q.gid;
  uid = q.uid;
  parent = q.id;
}

-- SLIST_INSERT_HEAD and the counters.
unfoldable pub insert : Procs → Proc → Procs
insert s p = record s {
  processes = p ∷ s.processes;
  next_pid = (s.next_pid + 1) % 2 ^ 32;
  proc_count = s.proc_count + 1;
  curr_pid = if s.proc_count + 1 == 1 && s.curr_pid == 0 then p.id else s.curr_pid;
}

abbrev pub adopt : ℕ → ℕ → ℕ → Proc → Proc
adopt i count pid q = record q { child = set q.child i pid; child_count = count }

-- The option in the result is the new process, or NULL; the outer one is a fault.
unfoldable pub proc_create : Procs → Request → Option (Option ℕ × Procs)
unfolding child_slot fresh_proc inherit insert write_proc
proc_create s r = if not r.alloc then some (none, s) else (elim r.parent [
  | none ↦ some (some s.next_pid, insert s (fresh_proc r s.next_pid))
  | some pp ↦ elim (process_frompid s pp) [
    | none ↦ none
    | some q ↦ elim (child_slot q) [
      | none ↦ some (none, s)
      | some (i, count) ↦ some (
        some s.next_pid,
        insert (write q.id (adopt i count s.next_pid) s) (inherit q (fresh_proc r s.next_pid)),
      )
    ]
  ]
])

unfoldable pub drop_child : ℕ → Proc → Proc
drop_child pid q = elim (slot_from q.child pid 0 q.child_count) [
  | none ↦ q
  | some i ↦ record q { child = set q.child i 0; child_count = q.child_count - 1 }
]

-- A parent that is gone is NULL, and its `child_count` is read.
unfoldable pub proc_destroy : Procs → ℕ → Option Procs
unfolding drop_child write_proc
proc_destroy s pid = do
  p ← process_frompid s pid
  let orphaned : Option Procs =
      if p.parent == 0 then some s else (elim (process_frompid s p.parent) [
        | none ↦ none
        | some q ↦ some (write q.id (drop_child pid) s)
      ])
  s' ← orphaned
  some (record s' { processes = remove (has_pid pid) s'.processes; proc_count = s'.proc_count - 1 })

abbrev pub set_status : Status → Proc → Proc
set_status st p = record p { status = st }

-- `W` is what programs act on, `nvk_emu` the emulator (true for UC_ERR_OK) and `call` the host's call
-- of an entry function with its argument.
module _ {W : Type 0} (nvk_emu : Option (List ℕ) → ℕ → ℕ → Procs × W → Bool × Procs × W)
    (call : ℕ → ℕ → Procs × W → Procs × W) where
  -- What runs between the two writes of the status.
  unfoldable pub run_program : Proc → Procs × W → Procs × W
  run_program p s =
      if p.isuser
      then (let r = nvk_emu p.prog p.prgsize p.impl s in (r.1, r.2))
      else (elim p.entry [ none ↦ s | some f ↦ call f p.impl s ])

  -- The thread's function; a process that its program has removed is written to after its end, a
  -- fault.
  unfoldable pub proc_runner : Procs × W → ℕ → Option (Procs × W)
  unfolding run_program write_proc
  proc_runner s pid = do
    p ← process_frompid s.0 pid
    let started = record (write pid (set_status ready) s.0) { curr_pid = pid }
    let done = run_program p (started, s.1)
    left ← process_frompid done.0 pid
    some (write pid (set_status zombie) done.0, done.1)

  -- The thread is started and waited for.
  unfoldable pub proc_go : Procs × W → ℕ → Option (Procs × W)
  unfolding proc_runner
  proc_go s pid = proc_runner s pid
