-- ===== src/Nvk/Running.antt =====
-- What a run of a process of tools/nvk/src/proc.c leaves in the table.
use stardustos.Prelude.{==_refl, Bool, List, Option, ne→==, refl, some, sym, ℕ, ◌∙◌, ◌≡◌, ◌≢◌}
use stardustos.Nvk.Lookup.{frompid-write}
use stardustos.Nvk.{Proc, Procs, proc_go, process_frompid, run_program, set_status, write}
use stardustos.Proc.{ready, zombie}

module _ {W : Type 0} (nvk_emu : Option (List ℕ) → ℕ → ℕ → Procs × W → Bool × Procs × W)
    (call : ℕ → ℕ → Procs × W → Procs × W) (s : Procs × W) (pid : ℕ) (p q : Proc) where
  -- What the program leaves, started as the current process.
  abbrev pub after_program : Procs × W
  after_program =
      run_program nvk_emu call p (record (write pid (set_status ready) s.0) { curr_pid = pid }, s.1)

  -- Whatever its program returns, a process that the program leaves in the table is a zombie after
  -- `proc_go`; no other process is touched, and the current process is the one that the program left.
  pub proc_go_leaves_zombie :
      process_frompid s.0 pid ≡ some p
      → process_frompid after_program.0 pid ≡ some q
      → (s' : Procs × W) × (proc_go nvk_emu call s pid ≡ some s')
        × (process_frompid s'.0 pid ≡ some (record q { status = zombie }))
        × ((j : ℕ) → j ≢ pid → process_frompid s'.0 j ≡ process_frompid after_program.0 j)
        × (s'.0.curr_pid ≡ after_program.0.curr_pid)
        × (s'.0.proc_count ≡ after_program.0.proc_count)
  unfolding proc_go
  proc_go_leaves_zombie there left =
      let end : Procs = write pid (set_status zombie) after_program.0 in
      (
        (end, after_program.1),
        rw (there, left) refl,
        frompid-write after_program.0 pid pid (set_status zombie) (λ r. refl)
            ∙ rw (==_refl pid, left) refl,
        λ j ne.
            frompid-write after_program.0 pid j (set_status zombie) (λ r. refl)
            ∙ rw (ne→== pid j (λ e. ne (sym e))) refl,
        refl,
        refl,
      )
