-- ===== src/Proc.antt =====
-- newland/arch/x86/src/proc.c: the process table, process creation and removal, signals and the
-- scheduler. `N` is `fs_node_t*`, what an open descriptor holds. A `proc_t*` is the process's id,
-- and the FPU and register switch of the hardware are left out.
use stardustos.Fs.{Fd}
use stardustos.Slist.{find, get_from}
use stardustos.Prelude.{
  Bool, List, Option, [], if◌then◌else◌, none, set, some, ℕ, ◌%◌, ◌+◌, ◌<◌, ◌==◌, ◌^◌, ◌∷◌,
}
pub mod Table
pub mod Create
pub mod Signal
pub mod Schedule
pub mod RoundRobin
pub mod Usage
pub mod Examples

-- CHILD_MAX, OPEN_MAX, SCHED_RECCOUNT, PROC_STACKSIZE
abbrev pub child_max : ℕ
child_max = 25

abbrev pub open_max : ℕ
open_max = 512

abbrev pub sched_reccount : ℕ
sched_reccount = 128

abbrev pub proc_stacksize : ℕ
proc_stacksize = 16384

-- PROC_ZOMBIE, PROC_FINISHED, PROC_RUNNING, PROC_READY
pub data Status : Type 0 where
  zombie finished running ready : Status

-- `proc_t`. The stack starts at the address `stack`, and `signal_handler` is NULL or not.
pub record Proc (N : Type 0) : Type 0 where
  pub id : ℕ
  pub name : List ℕ
  pub cwd : List ℕ
  pub tty : List ℕ
  pub stack : ℕ
  pub status : Status
  pub isuser : Bool
  pub issignaling : Bool
  pub signum : ℕ
  pub esp : ℕ
  pub cr3 : ℕ
  pub signal_handler : Bool
  pub fd : List (Fd N)
  pub gid : ℕ
  pub uid : ℕ
  pub parent : ℕ
  pub child : List ℕ
  pub child_count : ℕ

-- `processes` and the counters of proc.c
pub record Procs (N : Type 0) : Type 0 where
  pub processes : List (Proc N)
  pub next_pid : ℕ
  pub curr_pid : ℕ
  pub proc_count : ℕ
  pub ticks : ℕ
  pub sched_rec : List ℕ

abbrev pub has_pid : {N : Type 0} → ℕ → Proc N → Bool
has_pid pid p = p.id == pid

-- A write through the `proc_t*` of a process.
unfoldable pub modify : {N : Type 0} → ℕ → (Proc N → Proc N) → List (Proc N) → List (Proc N)
modify pid f [] = []
modify pid f (p ∷ ps) = if p.id == pid then f p ∷ ps else p ∷ modify pid f ps

-- `SLIST_NEXT` of the process with an id, with NULL behind the last one.
unfoldable pub after : {N : Type 0} → ℕ → List (Proc N) → Option (Proc N)
after pid [] = none
after pid (p ∷ []) = none
after pid (p ∷ q ∷ ps) = if p.id == pid then some q else after pid (q ∷ ps)

abbrev pub first : {N : Type 0} → List (Proc N) → Option (Proc N)
first [] = none
first (p ∷ ps) = some p

-- The scan of the record of the last ticks.
unfoldable pub usage_in : List ℕ → ℕ → ℕ
usage_in [] pid = 0
usage_in (r ∷ rs) pid = (if r == pid then 1 else 0) + usage_in rs pid

module _ {N : Type 0} where
  unfoldable pub process_count : Procs N → ℕ
  process_count s = s.proc_count

  unfoldable pub process_get : Procs N → ℕ → Option (Proc N)
  process_get s i = get_from s.processes 0 i

  unfoldable pub process_frompid : Procs N → ℕ → Option (Proc N)
  process_frompid s pid = find (has_pid pid) s.processes

  unfoldable pub process_curr : Procs N → Option (Proc N)
  process_curr s =
      if s.proc_count == 0
      then none
      else if s.curr_pid == 0
      then none
      else process_frompid s s.curr_pid

  unfoldable pub process_next : Procs N → Option (Proc N)
  process_next s =
      if s.proc_count == 0
      then none
      else if s.curr_pid == 0
      then none
      else (elim (process_frompid s s.curr_pid) [
        | none ↦ first s.processes
        | some _ ↦ elim (after s.curr_pid s.processes) [
          | some q ↦ some q
          | none ↦ first s.processes
        ]
      ])

  abbrev pub set_status : Status → Proc N → Proc N
  set_status st p = record p { status = st }

  -- The timer's handler. The option in the result is the switch of registers that it makes, from
  -- one process to another; a NULL `next_proc` is a fault.
  unfoldable pub schedule : Procs N → Option (Option (ℕ × ℕ) × Procs N)
  schedule s = if s.proc_count == 0 then some (none, s) else (elim (process_frompid s s.curr_pid) [
    | none ↦ some (none, s)
    | some curr ↦ elim (process_next s) [
      | none ↦ none
      | some next ↦ some (
        some (curr.id, next.id),
        record s {
          sched_rec = set s.sched_rec (s.ticks % sched_reccount) s.curr_pid;
          ticks = (s.ticks + 1) % 2 ^ 32;
          curr_pid = next.id;
          processes =
              modify next.id (set_status running) (modify curr.id (set_status ready) s.processes);
        },
      )
    ]
  ])

  unfoldable pub sched_getusage : Procs N → ℕ → ℕ
  unfolding usage_in
  sched_getusage s pid = usage_in s.sched_rec pid

-- Every id of a list lies strictly between 0 and a bound.
abbrev pub AllBelow : ℕ → List ℕ → Type 0
AllBelow n [] = Unit
AllBelow n (i ∷ is) = (0 < i) × (i < n) × AllBelow n is
