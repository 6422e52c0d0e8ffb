-- ===== src/Nvk/Lookup.antt =====
-- Lookups in the table of tools/nvk/src/proc.c after a write and after an insertion.
use stardustos.Prelude.{List, Option, [], arith, if◌then◌else◌, none, refl, some, ℕ, ◌==◌, ◌∷◌, ◌≡◌}
use stardustos.Slist.{find}
use stardustos.Nvk.{Proc, Procs, has_pid, insert, process_frompid, write, write_proc}

abbrev pub map_proc : (Proc → Proc) → Option Proc → Option Proc
map_proc f none = none
map_proc f (some p) = some (f p)

find-write_proc :
    (pid j : ℕ) (f : Proc → Proc) (ps : List Proc)
    → ((p : Proc) → (f p).id ≡ p.id)
    → find (has_pid j) (write_proc pid f ps)
      ≡ (if pid == j then map_proc f (find (has_pid j) ps) else find (has_pid j) ps)
unfolding find write_proc
find-write_proc pid j f [] same = ground arith
find-write_proc pid j f (p ∷ ps) same = ground (arith, same p, find-write_proc pid j f ps same)

-- A write through a `proc_t*` is seen under its id, and under no other.
pub frompid-write :
    (s : Procs) (pid j : ℕ) (f : Proc → Proc)
    → ((p : Proc) → (f p).id ≡ p.id)
    → process_frompid (write pid f s) j
      ≡ (if pid == j then map_proc f (process_frompid s j) else process_frompid s j)
unfolding process_frompid
frompid-write s pid j f same = find-write_proc pid j f s.processes same

pub frompid-insert :
    (s : Procs) (p : Proc) (j : ℕ)
    → process_frompid (insert s p) j ≡ (if p.id == j then some p else process_frompid s j)
unfolding process_frompid insert find
frompid-insert s p j = refl
