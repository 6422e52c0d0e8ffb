-- ===== src/Proc/Usage.antt =====
-- The record of the last SCHED_RECCOUNT ticks in newland/arch/x86/src/proc.c.
use stardustos.Prelude.{
  Bool, List, [], ap, arith, get_or, if◌then◌else◌, length, length-set, set, some, suc, zero, ℕ,
  ◌%◌, ◌+◌, ◌<◌, ◌==◌, ◌∙◌, ◌∷◌, ◌≡◌, ◌≤◌,
}
use stardustos.Proc.{Procs, sched_getusage, sched_reccount, schedule, usage_in}

one_if : Bool → ℕ
one_if b = if b then 1 else 0

usage_in-set :
    (rs : List ℕ) (i v pid : ℕ)
    → i < length rs
    → usage_in (set rs i v) pid + one_if (get_or rs i 0 == pid)
      ≡ usage_in rs pid + one_if (v == pid)
unfolding usage_in one_if
usage_in-set [] i v pid h = elim h [ ]
usage_in-set (r ∷ rs) zero v pid h = ground arith
usage_in-set (r ∷ rs) (suc i) v pid h = omega (arith, usage_in-set rs i v pid (omega arith))

usage_in-le-length : (rs : List ℕ) (pid : ℕ) → usage_in rs pid ≤ length rs
unfolding usage_in
usage_in-le-length [] pid = omega arith
usage_in-le-length (r ∷ rs) pid = ground (arith, usage_in-le-length rs pid)

module _ {N : Type 0} where
  recorded :
      (s : Procs N) (curr next : ℕ) {s' : Procs N}
      → schedule s ≡ some (some (curr, next), s')
      → s'.sched_rec ≡ set s.sched_rec (s.ticks % sched_reccount) s.curr_pid
  unfolding schedule
  recorded s curr next h = ground arith

  -- A tick charges the process that was running and forgets the tick that is SCHED_RECCOUNT old,
  -- and the usage of a process stays within SCHED_RECCOUNT.
  pub sched_getusage-schedule :
      (s : Procs N) (curr next pid : ℕ) {s' : Procs N}
      → length s.sched_rec ≡ sched_reccount
      → schedule s ≡ some (some (curr, next), s')
      → (sched_getusage s' pid
            + (if get_or s.sched_rec (s.ticks % sched_reccount) 0 == pid then 1 else 0)
          ≡ sched_getusage s pid + (if s.curr_pid == pid then 1 else 0))
        × (sched_getusage s' pid ≤ sched_reccount)
        × (length s'.sched_rec ≡ sched_reccount)
  unfolding sched_getusage one_if
  sched_getusage-schedule s curr next pid {s'} full h =
      let rec' = recorded s curr next {s' = s'} h in
      let i = s.ticks % sched_reccount in
      let size : length s'.sched_rec ≡ sched_reccount =
        ap length rec' ∙ length-set s.sched_rec i s.curr_pid ∙ full in
      (
        rw rec' (usage_in-set s.sched_rec i s.curr_pid pid (omega (arith, full))),
        omega (arith, size, usage_in-le-length s'.sched_rec pid),
        size,
      )
