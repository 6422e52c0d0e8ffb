-- ===== src/Nvk/Examples.antt =====
-- A host process of tools/nvk/src/proc.c, and files that arrive late or in parts.
use stardustos.Prelude.{
  Bool, List, Option, [], arith, codes, drop, if◌then◌else◌, ltb, none, refl, replicate, some, true,
  ℕ, ◌++◌, ◌+◌, ◌∷◌, ◌≡◌, ◌≢◌,
}
use stardustos.Nvk.Reading.{read_from_overwrites, read_from_stalls}
use stardustos.Nvk.{
  Proc, Procs, Request, fresh_proc, insert, proc_go, process_frompid, run_program, write_proc,
}
use stardustos.Proc.{zombie}
use stardustos.Nvk.Exec.{read_from}
use stardustos.Fs.Files.{fs_node_read}
use stardustos.Fs.{Node, Tables, fs_node_type_get}
use stardustos.Slist.{find}
use stardustos.Nvk.Running.{proc_go_leaves_zombie}

abbrev request : Request
request = record { alloc = true; parent = none; name = codes "init"; isuser = true; tty0 = none }

abbrev one_process : Procs
one_process =
    insert (record { processes = []; next_pid = 1; curr_pid = 0; proc_count = 0 })
      (fresh_proc request 1)

-- A program that does nothing.
abbrev idle : Option (List ℕ) → ℕ → ℕ → Procs × ℕ → Bool × Procs × ℕ
idle prog size impl s = (true, s.0, s.1)

abbrev no_call : ℕ → ℕ → Procs × ℕ → Procs × ℕ
no_call f impl s = s

abbrev init_ready : Proc
init_ready = fresh_proc request 1

proc_go_leaves_zombie_example :
    (s' : Procs × ℕ) × (proc_go idle no_call (one_process, 0) 1 ≡ some s')
    × (process_frompid s'.0 1 ≡ some (record init_ready { status = zombie }))
    × ((j : ℕ) → j ≢ 1 → process_frompid s'.0 j ≡ process_frompid one_process j)
    × (s'.0.curr_pid ≡ 1)
    × (s'.0.proc_count ≡ one_process.proc_count)
unfolding insert fresh_proc process_frompid run_program write_proc find
proc_go_leaves_zombie_example =
    proc_go_leaves_zombie idle no_call (one_process, 0) 1 init_ready init_ready refl refl

-- A file of four bytes. Before the state 9 it gives nothing; from there on it gives two bytes to a
-- read, which are the state's number, and then the next state.
abbrev slow : ℕ → ℕ → Node ℕ
slow w n = record {
  name = codes "slow";
  mode = 0;
  size = 4;
  opts = record {
    open_node = none;
    close_node = none;
    get_child = none;
    read = some (λ w node offset size. if ltb w 9 then (0, [], w) else (2, w ∷ w ∷ [], w + 1));
    write = none;
    ioctl = none;
  };
}

abbrev no_mounts : Tables ℕ
no_mounts = record { filesystems = []; filesystem_count = 0; mountpoints = []; mp_count = 0 }

read_from_stalls_example : read_from slow no_mounts 1 40 0 7 1 (replicate 4 0) ≡ none
unfolding fs_node_read fs_node_type_get
read_from_stalls_example =
    read_from_stalls slow no_mounts 1 40 0 7 1 (replicate 4 0) (omega arith) (omega arith) refl

read_from_overwrites_example :
    read_from slow no_mounts 1 3 9 7 0 (replicate 4 0)
    ≡ some (none, (10 ∷ 10 ∷ []) ++ drop 2 ((9 ∷ 9 ∷ []) ++ drop 2 (replicate 4 0)), 11)
unfolding fs_node_read fs_node_type_get
read_from_overwrites_example =
    read_from_overwrites slow no_mounts 1 9 10 11 7 2 2 (9 ∷ 9 ∷ []) (10 ∷ 10 ∷ []) (replicate 4 0)
      (omega arith) (omega arith) refl refl refl refl refl refl refl refl
