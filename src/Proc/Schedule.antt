-- ===== src/Proc/Schedule.antt =====
-- What one tick of the scheduler in newland/arch/x86/src/proc.c does to each process.
use stardustos.Prelude.{
  ==_refl, Bool-cases, [], ap, arith, false, if◌then◌else◌, inl, inr, refl, set, some, true, ℕ, ◌%◌,
  ◌+◌, ◌==◌, ◌^◌, ◌∙◌, ◌≡◌, ◌⊎◌,
}
use stardustos.Slist.Laws.{find-test}
use stardustos.Slist.{find}
use stardustos.Proc.Signal.{
  is_fatal, proc_handle_interrupt, proc_sigenter, sigill, signal_of, sigsegv, sigstkflt,
}
use stardustos.Proc.Table.{find-modify, map_proc}
use stardustos.Proc.{
  Proc, Procs, has_pid, modify, process_curr, process_frompid, process_next, ready, running,
  sched_reccount, schedule, set_status, zombie,
}

fault_signal :
    (int_no : ℕ)
    → (int_no ≡ 0x06) ⊎ (int_no ≡ 0x0c) ⊎ (int_no ≡ 0x0e)
    → (signum : ℕ) × (signal_of int_no ≡ some signum) × (is_fatal signum ≡ true)
unfolding signal_of is_fatal
fault_signal int_no (inl e) = (sigill, rw e, refl)
fault_signal int_no (inr (inl e)) = (sigstkflt, rw e, refl)
fault_signal int_no (inr (inr e)) = (sigsegv, rw e, refl)

module _ {N : Type 0} where
  schedule-processes :
      (s : Procs N) (curr next : ℕ) {s' : Procs N}
      → schedule s ≡ some (some (curr, next), s')
      → (s'.curr_pid ≡ next)
        × (s'.processes
            ≡ modify next (set_status running) (modify curr (set_status ready) s.processes))
  unfolding schedule
  schedule-processes s curr next h = ground arith

  process_next-count :
      (s : Procs N) {next : Proc N} → process_next s ≡ some next → (s.proc_count == 0) ≡ false
  unfolding process_next
  process_next-count s {next} h = elim (Bool-cases (s.proc_count == 0)) [
    | inl e ↦ absurd (ground (arith, h, e))
    | inr e ↦ e
  ]

  -- What is found under an id after one process has become ready and then one running.
  frompid-switch :
      (s : Procs N) (curr next j : ℕ)
      → find
          (has_pid j)
          (modify next (set_status running) (modify curr (set_status ready) s.processes))
        ≡ (if next == j
            then map_proc (set_status running) (process_frompid s j)
            else if curr == j
            then map_proc (set_status ready) (process_frompid s j)
            else process_frompid s j)
  unfolding process_frompid
  frompid-switch s curr next j = ground (
    arith,
    find-modify next j (set_status running) (modify curr (set_status ready) s.processes)
        (λ _. refl),
    find-modify curr j (set_status ready) s.processes (λ _. refl),
  )

  -- Where `curr_pid` is the id of a process and `process_next` gives one, a tick switches from the
  -- first to the second: that becomes the current and the running one, the first becomes ready,
  -- whatever they were, and every other process is as it was. The tick is counted, and recorded for
  -- the first one.
  pub schedule-status :
      (s : Procs N) {curr next : Proc N}
      → process_frompid s s.curr_pid ≡ some curr
      → process_next s ≡ some next
      → (s' : Procs N) × (schedule s ≡ some (some (s.curr_pid, next.id), s'))
        × (s'.curr_pid ≡ next.id)
        × (s'.ticks ≡ (s.ticks + 1) % 2 ^ 32)
        × (s'.sched_rec ≡ set s.sched_rec (s.ticks % sched_reccount) s.curr_pid)
        × ((j : ℕ)
            → process_frompid s' j ≡ (
                if next.id == j
                then map_proc (set_status running) (process_frompid s j)
                else if s.curr_pid == j
                then map_proc (set_status ready) (process_frompid s j)
                else process_frompid s j))
  unfolding schedule process_frompid
  schedule-status s {curr} {next} current following =
      let same : curr.id ≡ s.curr_pid =
        ground (arith, find-test (has_pid s.curr_pid) s.processes {x = curr}) in
      let some_process : (s.proc_count == 0) ≡ false =
        process_next-count s {next = next} following in
      (
        record s {
          sched_rec = set s.sched_rec (s.ticks % sched_reccount) s.curr_pid;
          ticks = (s.ticks + 1) % 2 ^ 32;
          curr_pid = next.id;
          processes =
              modify next.id (set_status running)
                (modify s.curr_pid (set_status ready) s.processes);
        },
        rw (some_process, current, following, same) refl,
        refl,
        refl,
        refl,
        frompid-switch s s.curr_pid next.id,
      )

  proc_sigenter-id :
      (m : ℕ → ℕ) (p : Proc N) (signum : ℕ) → (proc_sigenter m p signum []).2.id ≡ p.id
  unfolding proc_sigenter
  proc_sigenter-id m p signum = ground arith

  process_curr-frompid :
      (s : Procs N) {p : Proc N}
      → process_curr s ≡ some p
      → find (has_pid p.id) s.processes ≡ some p
  unfolding process_curr process_frompid
  process_curr-frompid s {p} h =
      let found : find (has_pid s.curr_pid) s.processes ≡ some p = ground arith in
      let same : p.id ≡ s.curr_pid =
        ground (arith, find-test (has_pid s.curr_pid) s.processes {x = p}) in
      simp same found

  proc_sigenter_fatal :
      (m : ℕ → ℕ) (p : Proc N) (signum : ℕ)
      → is_fatal signum ≡ true
      → p.issignaling ≡ false
      → p.signal_handler ≡ false
      → (proc_sigenter m p signum []).2 ≡ record p { status = zombie }
  unfolding proc_sigenter
  proc_sigenter_fatal m p signum fatal outside unhandled = ground arith

  handled_processes :
      (m : ℕ → ℕ) (s : Procs N) (int_no signum : ℕ) (p : Proc N) {t : Procs N}
      → signal_of int_no ≡ some signum
      → process_curr s ≡ some p
      → proc_handle_interrupt m s int_no ≡ some t
      → t.processes ≡ modify p.id (λ p. (proc_sigenter m p signum []).2) s.processes
  unfolding proc_handle_interrupt
  handled_processes m s int_no signum p sig is_curr h = ground arith

  -- An invalid opcode, a stack fault or a page fault without a handler makes the current process a
  -- zombie; the next tick makes it ready or running again.
  pub schedule_revives :
      (m : ℕ → ℕ) (s : Procs N) (int_no next : ℕ) (p : Proc N) {t u : Procs N}
      → (int_no ≡ 0x06) ⊎ (int_no ≡ 0x0c) ⊎ (int_no ≡ 0x0e)
      → process_curr s ≡ some p
      → p.issignaling ≡ false
      → p.signal_handler ≡ false
      → proc_handle_interrupt m s int_no ≡ some t
      → schedule t ≡ some (some (p.id, next), u)
      → (process_frompid t p.id ≡ some (record p { status = zombie }))
        × (process_frompid u p.id
            ≡ some (record p { status = if next == p.id then running else ready }))
  unfolding process_frompid
  schedule_revives m s int_no next p {t} {u} fault is_curr outside unhandled h k =
      let (signum, sig, fatal) = fault_signal int_no fault in
      let enter = λ (q : Proc N). (proc_sigenter m q signum []).2 in
      let killed : find (has_pid p.id) t.processes ≡ some (record p { status = zombie }) = rw (
        handled_processes m s int_no signum p {t = t} sig is_curr h,
        find-modify p.id p.id enter s.processes (λ q. proc_sigenter-id m q signum),
        ==_refl p.id,
        process_curr-frompid s {p = p} is_curr,
        proc_sigenter_fatal m p signum fatal outside unhandled,
      ) in
      (
        killed,
        ap (find (has_pid p.id)) (schedule-processes t p.id next {s' = u} k).1
            ∙ frompid-switch t p.id next p.id
            ∙ ground (arith, killed),
      )
