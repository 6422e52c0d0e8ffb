-- ===== src/Proc/Examples.antt =====
-- The process table of newland/arch/x86/src/proc.c with three processes.
use stardustos.Prelude.{
  List, [], arith, codes, false, if◌then◌else◌, inr, length, none, refl, replicate, set, some, true,
  ℕ, ◌%◌, ◌+◌, ◌<◌, ◌==◌, ◌^◌, ◌∷◌, ◌≡◌, ◌≢◌,
}
use stardustos.Proc.Create.Valid.{proc_create-IsValid}
use stardustos.Slist.{find}
use stardustos.Fs.{Fd}
use stardustos.Proc.{
  Proc, Procs, after, modify, process_count, process_curr, process_frompid, process_next, ready,
  running, sched_reccount, schedule, set_status, zombie,
}
use stardustos.Proc.Table.{IsValid, map_proc}
use stardustos.Proc.RoundRobin.{ticks_run, ticks_run_reaches_all}
use stardustos.Proc.Create.{
  Request, adopt, fresh_proc, inherit, insert, open_nodes, proc_create, proc_destroy,
}
use stardustos.Proc.Create.Cleanup.{
  AreRoots, processes_cleanup, processes_cleanup-survivor, survivor,
}
use stardustos.Proc.Create.Lookup.{proc_create-frompid}
use stardustos.Proc.Create.Destroy.{proc_destroy-frompid}
use stardustos.Proc.Signal.{proc_handle_interrupt, proc_sigenter}
use stardustos.Proc.Schedule.{schedule-status}

-- A process with an id, its parent's id, its children and its open descriptors.
abbrev process : ℕ → ℕ → List ℕ → List (Fd ℕ) → Proc ℕ
process id parent child fd = record {
  id = id;
  name = codes "sh";
  cwd = codes "/";
  tty = codes "tty0";
  stack = 65536;
  status = ready;
  isuser = true;
  issignaling = false;
  signum = 0;
  esp = 81920;
  cr3 = 0;
  signal_handler = false;
  fd = fd;
  gid = 0;
  uid = 0;
  parent = parent;
  child = child;
  child_count = length child;
}

abbrev open_fd : Fd ℕ
open_fd = record { node = some 77; gid = 0; uid = 0; pid = 3; offset = 0; mode = 0 }

abbrev init : Proc ℕ
init = process 1 0 (2 ∷ 3 ∷ []) []

abbrev three : Procs ℕ
three = record {
  processes = process 3 1 [] (open_fd ∷ []) ∷ process 2 1 [] [] ∷ init ∷ [];
  next_pid = 4;
  curr_pid = 2;
  proc_count = 3;
  ticks = 0;
  sched_rec = replicate sched_reccount 0;
}

three-IsValid : IsValid three
unfolding find
three-IsValid = record {
  distinct = (refl, (refl, (refl, _)));
  fresh = (omega arith, omega arith, (omega arith, omega arith, (omega arith, omega arith, _)));
  counted = refl;
  positive = omega arith;
}

ticks_run_reaches_all_example :
    (k : ℕ) × (k < 3) × (s' : Procs ℕ) × (ticks_run k three ≡ some s') × (s'.curr_pid ≡ 3)
ticks_run_reaches_all_example = ticks_run_reaches_all three 1 0 3 three-IsValid refl refl

-- A child of init, and what `proc_create` makes of it.
abbrev request : Request
request = record {
  alloc = true;
  stack = 131072;
  parent = some 1;
  name = codes "ls";
  isuser = true;
  tty0 = none;
  pgdir = 4096;
  krnl_pgdir = 0;
}

abbrev four : Procs ℕ
four =
    insert (record three { processes = modify 1 (adopt 2 3 4) three.processes })
      (inherit init (fresh_proc request 4))

created : proc_create three request ≡ some (some 4, four)
unfolding proc_create process_frompid find insert inherit fresh_proc modify
created = refl

proc_create-frompid_example :
    (4 ≡ three.next_pid)
    × ((p : Proc ℕ) × (process_frompid four 4 ≡ some p)
        × (p.status ≡ ready)
        × (open_nodes p.fd ≡ []))
    × ((j : ℕ) → j ≢ 4 → some 1 ≢ some j → process_frompid four j ≡ process_frompid three j)
proc_create-frompid_example = proc_create-frompid three request 4 three-IsValid created

proc_create-IsValid_example : IsValid four
proc_create-IsValid_example = proc_create-IsValid three request three-IsValid (omega arith) created

proc_destroy-frompid_example :
    (s' : Procs ℕ) × (proc_destroy three 3 ≡ some (open_nodes (open_fd ∷ []), s'))
    × (process_frompid s' 3 ≡ none)
    × (process_count s' + 1 ≡ process_count three)
    × ((j : ℕ) → j ≢ 3 → j ≢ 1 → process_frompid s' j ≡ process_frompid three j)
    × IsValid s'
unfolding process_frompid find
proc_destroy-frompid_example =
    proc_destroy-frompid three 3 (process 3 1 [] (open_fd ∷ [])) three-IsValid refl (inr refl)

abbrev ticked : Procs ℕ
ticked = record three {
  processes =
      process 3 1 [] (open_fd ∷ []) ∷ process 2 1 [] [] ∷ record init { status = running } ∷ [];
  curr_pid = 1;
  ticks = 1;
  sched_rec = set three.sched_rec 0 2;
}

tick : schedule three ≡ some (some (2, 1), ticked)
unfolding schedule process_next process_frompid find after modify
tick = refl

schedule-status_example :
    (s' : Procs ℕ) × (schedule three ≡ some (some (2, 1), s'))
    × (s'.curr_pid ≡ 1)
    × (s'.ticks ≡ (0 + 1) % 2 ^ 32)
    × (s'.sched_rec ≡ set three.sched_rec (0 % sched_reccount) 2)
    × ((j : ℕ)
        → process_frompid s' j ≡ (
            if 1 == j
            then map_proc (set_status running) (process_frompid three j)
            else if 2 == j
            then map_proc (set_status ready) (process_frompid three j)
            else process_frompid three j))
unfolding process_next process_frompid find after
schedule-status_example = schedule-status three {curr = process 2 1 [] []} {next = init} refl refl

-- The current process hits an invalid opcode, and the timer goes on.
abbrev hit : Procs ℕ
hit = record three {
  processes =
      process 3 1 [] (open_fd ∷ []) ∷ record (process 2 1 [] []) { status = zombie } ∷ init ∷ [];
}

zombified : proc_handle_interrupt (λ i. 0) three 0x06 ≡ some hit
unfolding proc_handle_interrupt process_curr process_frompid find modify proc_sigenter
zombified = refl

tick_over_zombie : schedule hit ≡ some (some (2, 1), ticked)
unfolding schedule process_next process_frompid find after modify
tick_over_zombie = refl

abbrev catcher : Proc ℕ
catcher = record init { signal_handler = true }

-- A zombie without a parent, in front of init.
abbrev with_zombie : Procs ℕ
with_zombie = record three {
  processes = record (process 3 0 [] (open_fd ∷ [])) { status = zombie } ∷ init ∷ [];
  proc_count = 2;
}

with_zombie-IsValid : IsValid with_zombie
unfolding find
with_zombie-IsValid = record {
  distinct = (refl, (refl, _));
  fresh = (omega arith, omega arith, (omega arith, omega arith, _));
  counted = refl;
  positive = omega arith;
}

with_zombie-AreRoots : AreRoots with_zombie with_zombie.processes
unfolding process_frompid find
with_zombie-AreRoots = (refl, λ h. refl, refl, (refl, λ h. refl, refl, _))

processes_cleanup-survivor_example :
    (out : List ℕ) × (s' : Procs ℕ) × (processes_cleanup with_zombie ≡ some (out, s'))
    × IsValid s'
    × ((j : ℕ)
        → process_frompid s' j ≡ survivor j with_zombie.processes (process_frompid with_zombie j))
processes_cleanup-survivor_example =
    processes_cleanup-survivor with_zombie with_zombie-IsValid with_zombie-AreRoots
