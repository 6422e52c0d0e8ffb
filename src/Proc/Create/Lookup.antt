-- ===== src/Proc/Create/Lookup.antt =====
-- Which processes the table of newland/arch/x86/src/proc.c holds after a creation.
use stardustos.Slist.Laws.{find-test}
use stardustos.Prelude.{
  ==_iff, ==_refl, [], ap, eq_of_some, if◌then◌else◌, inl, inr, ne→==, refl, replicate, some, suc,
  sym, zero, ℕ, ◌==◌, ◌∙◌, ◌≡◌, ◌≢◌,
}
use stardustos.Slist.{find}
use stardustos.Proc.{Proc, Procs, has_pid, modify, open_max, process_frompid, ready}
use stardustos.Proc.Table.{IsValid, find-modify}
use stardustos.Proc.Create.{
  Request, adopt, closed_fd, fresh_proc, inherit, insert, open_nodes, proc_create,
}
use stardustos.Proc.Create.Valid.{fresh_proc-id, inherit-id, proc_create-cases}

open_nodes-closed : (N : Type 0) (n : ℕ) → open_nodes (replicate n (closed_fd {N = N})) ≡ []
unfolding open_nodes
open_nodes-closed N zero = refl
open_nodes-closed N (suc n) = open_nodes-closed N n

fresh_ready : (N : Type 0) (r : Request) (pid : ℕ) → (fresh_proc {N = N} r pid).status ≡ ready
unfolding fresh_proc
fresh_ready N r pid = refl

fresh_closed : (N : Type 0) (r : Request) (pid : ℕ) → open_nodes (fresh_proc {N = N} r pid).fd ≡ []
unfolding fresh_proc
fresh_closed N r pid = open_nodes-closed N open_max

module _ {N : Type 0} where
  frompid-insert :
      (s : Procs N) (p : Proc N) (j : ℕ)
      → process_frompid (insert s p) j ≡ (if p.id == j then some p else process_frompid s j)
  unfolding process_frompid insert find
  frompid-insert s p j = refl

  pub frompid-modify_ne :
      (s : Procs N) (pid j : ℕ) (f : Proc N → Proc N)
      → ((p : Proc N) → (f p).id ≡ p.id)
      → pid ≢ j
      → process_frompid (record s { processes = modify pid f s.processes }) j ≡ process_frompid s j
  unfolding process_frompid
  frompid-modify_ne s pid j f same ne = find-modify pid j f s.processes same ∙ rw (ne→== pid j ne)

  inherit_ready :
      (q : Proc N) (r : Request) (pid : ℕ) → (inherit q (fresh_proc r pid)).status ≡ ready
  unfolding fresh_proc inherit
  inherit_ready q r pid = refl

  inherit_closed :
      (q : Proc N) (r : Request) (pid : ℕ) → open_nodes (inherit q (fresh_proc r pid)).fd ≡ []
  unfolding fresh_proc inherit
  inherit_closed q r pid = open_nodes-closed N open_max

  pub frompid-id :
      (s : Procs N) (pid : ℕ) (q : Proc N) → process_frompid s pid ≡ some q → q.id ≡ pid
  unfolding process_frompid
  frompid-id s pid q h = (==_iff q.id pid).0 (find-test (has_pid pid) s.processes {x = q} h)

  -- In a valid table a new process is found under the next id, ready and without open descriptors.
  -- Every other process but the parent is as it was.
  pub proc_create-frompid :
      (s : Procs N) (r : Request) (pid : ℕ) {s' : Procs N}
      → IsValid s
      → proc_create s r ≡ some (some pid, s')
      → (pid ≡ s.next_pid)
        × ((p : Proc N) × (process_frompid s' pid ≡ some p)
            × (p.status ≡ ready)
            × (open_nodes p.fd ≡ []))
        × ((j : ℕ) → j ≢ pid → r.parent ≢ some j → process_frompid s' j ≡ process_frompid s j)
  proc_create-frompid s r pid {s'} v h = elim (proc_create-cases s r {out = some pid} {s' = s'} h) [
    | inl (nothing, _) ↦ absurd (cc)
    | inr (inl (is_next, e)) ↦
        let p = fresh_proc r s.next_pid in
        let same : p.id ≡ s.next_pid = fresh_proc-id N r s.next_pid in
        let got : pid ≡ s.next_pid = eq_of_some is_next in
        (
          got,
          (
            p,
            rw (e, frompid-insert s p pid, same, got, ==_refl s.next_pid),
            fresh_ready N r s.next_pid,
            fresh_closed N r s.next_pid,
          ),
          λ j ne _.
              rw (e, frompid-insert s p j, same, ne→== s.next_pid j (λ k. ne (sym k ∙ sym got))),
        )
    | inr (inr (is_next, a)) ↦
        let p = inherit a.q (fresh_proc r s.next_pid) in
        let t : Procs N = record s {
          processes = modify a.q.id (adopt a.index a.count s.next_pid) s.processes;
        } in
        let same : p.id ≡ s.next_pid = inherit-id a.q r s.next_pid in
        let got : pid ≡ s.next_pid = eq_of_some is_next in
        let is_parent : a.q.id ≡ a.parent_pid = frompid-id s a.parent_pid a.q a.known in
        (
          got,
          (
            p,
            rw (a.result, frompid-insert t p pid, same, got, ==_refl s.next_pid),
            inherit_ready a.q r s.next_pid,
            inherit_closed a.q r s.next_pid,
          ),
          λ j ne other.
              rw
                (
                  a.result,
                  frompid-insert t p j,
                  same,
                  ne→== s.next_pid j (λ k. ne (sym k ∙ sym got)),
                )
                (frompid-modify_ne s a.q.id j (adopt a.index a.count s.next_pid) (λ _. refl)
                  (λ k. other (a.given ∙ ap some (sym is_parent ∙ k)))),
        )
  ]
