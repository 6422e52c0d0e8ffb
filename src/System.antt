-- ===== src/System.antt =====
-- newland/src/system.c: the system calls on the current process and its open descriptors. An `int`
-- argument is its 32-bit pattern, and a pointer into a process's `fd` is the index there.
use stardustos.Prelude.{
  Bool, List, Option, Ret, [], as_size, einval, emfile, failed, get_or, if◌then◌else◌, is_some, leb,
  none, set, some, value, ℕ, ◌%◌, ◌+◌, ◌==◌, ◌>>=◌, ◌^◌, ◌||◌, ◌∷◌,
}
use stardustos.Fs.{Fd, Node, Tables}
use stardustos.Fs.Mounts.{fs_resolve}
use stardustos.Fs.Files.{fs_node_close, fs_node_open, fs_node_read, fs_node_write, is_negative}
use stardustos.Proc.{Proc, Procs, modify, open_max, process_curr}
pub mod Descriptors
pub mod Syscalls
pub mod Examples

abbrev pub nl_prop_isnvk : ℕ
nl_prop_isnvk = 1

-- `fd < 0 || fd >= OPEN_MAX`
unfoldable pub bad_fd : ℕ → Bool
bad_fd fd = is_negative fd || leb open_max fd

abbrev pub closed : Fd ℕ
closed = record { node = none; gid = 0; uid = 0; pid = 0; offset = 0; mode = 0 }

-- `nvk` is whether `__nvk__` is defined.
unfoldable pub nl_getbuildprop : Bool → ℕ → Ret
nl_getbuildprop nvk prop =
    if prop == nl_prop_isnvk then value (if nvk then 1 else 0) else failed einval

-- The loop of `nl_open`: the first index from `i` on whose node is NULL.
unfoldable pub free_from : List (Fd ℕ) → ℕ → Option ℕ
free_from [] i = none
free_from (f ∷ fs) i = if is_some f.node then free_from fs (i + 1) else some i

abbrev pub set_fd : ℕ → Fd ℕ → Proc ℕ → Proc ℕ
set_fd i f p = record p { fd = set p.fd i f }

-- A write to `proc->fd[i]`.
unfoldable pub store : Procs ℕ → ℕ → ℕ → Fd ℕ → Procs ℕ
store s pid i f = record s { processes = modify pid (set_fd i f) s.processes }

unfoldable pub nl_getpid : Procs ℕ → ℕ
nl_getpid s = elim (process_curr s) [ none ↦ 0 | some p ↦ p.id ]

unfoldable pub nl_getuid : Procs ℕ → ℕ
nl_getuid s = elim (process_curr s) [ none ↦ 0 | some p ↦ p.uid ]

unfoldable pub nl_getgid : Procs ℕ → ℕ
nl_getgid s = elim (process_curr s) [ none ↦ 0 | some p ↦ p.gid ]

-- The fields that a failed `nl_open` and `nl_close` clear.
unfoldable pub clear_fd : Fd ℕ → Fd ℕ
clear_fd f = record f { node = none; mode = 0; gid = 0; uid = 0 }

-- Descriptor `i` as `nl_open` fills it in.
unfoldable pub opened : Proc ℕ → ℕ → ℕ → Fd ℕ
opened p node mode = record {
  node = some node;
  gid = p.gid;
  uid = p.uid;
  pid = p.id;
  offset = 0;
  mode = mode;
}

-- `fd.offset += r`
unfoldable pub advance : Fd ℕ → ℕ → Fd ℕ
advance f r = record f { offset = (f.offset + r) % 2 ^ 32 }

-- `none` is a fault, or the end of the fuel for `fs_resolve`.
module _ {W : Type 0} (node_at : W → ℕ → Node W) where
  unfoldable pub nl_open : ℕ → Tables W → Procs ℕ → W → List ℕ → ℕ → Option (Ret × Procs ℕ × W)
  unfolding free_from store clear_fd opened
  nl_open fuel t s w path mode = elim (process_curr s) [
    | none ↦ some (failed einval, s, w)
    | some p ↦ elim (free_from p.fd 0) [
      | none ↦ some (failed emfile, s, w)
      | some i ↦ fs_resolve node_at fuel w t (some path) >>= λ found. elim found.0 [
        | failed e ↦ some (failed e, s, found.2)
        | value _ ↦ found.1 >>= λ node.
            let done = fs_node_open node_at found.2 node (opened p node mode) in
            elim done.0 [
              | failed e ↦ some (failed e, store s p.id i (clear_fd done.1), done.2)
              | value _ ↦ some (value i, store s p.id i done.1, done.2)
            ]
      ]
    ]
  ]

  unfoldable pub nl_close : Procs ℕ → W → ℕ → Option (Ret × Procs ℕ × W)
  unfolding store clear_fd
  nl_close s w fd = elim (process_curr s) [
    | none ↦ some (failed einval, s, w)
    | some p ↦ if bad_fd fd then some (failed einval, s, w) else elim (get_or p.fd fd closed).node [
      | none ↦ none
      | some node ↦
          let done = fs_node_close node_at w node (get_or p.fd fd closed) in
          elim done.0 [
            | failed e ↦ some (failed e, store s p.id fd done.1, done.2)
            | value _ ↦ some (value 0, store s p.id fd (clear_fd done.1), done.2)
          ]
    ]
  ]

  unfoldable pub nl_write : ℕ → Tables W → Procs ℕ → W → ℕ → List ℕ → Option (ℕ × Procs ℕ × W)
  unfolding store advance
  nl_write fuel t s w fd buff = elim (process_curr s) [
    | none ↦ some (as_size (failed einval), s, w)
    | some p ↦
        if bad_fd fd
        then some (as_size (failed einval), s, w)
        else elim (get_or p.fd fd closed).node [
          | none ↦ none
          | some node ↦ do
            (r, w') ← fs_node_write node_at t fuel w node (get_or p.fd fd closed).offset buff
            some (r, store s p.id fd (advance (get_or p.fd fd closed) r), w')
        ]
  ]

  unfoldable pub nl_read : ℕ → Tables W → Procs ℕ → W → ℕ → ℕ → Option (ℕ × List ℕ × Procs ℕ × W)
  unfolding store advance
  nl_read fuel t s w fd count = elim (process_curr s) [
    | none ↦ some (as_size (failed einval), [], s, w)
    | some p ↦
        if bad_fd fd
        then some (as_size (failed einval), [], s, w)
        else elim (get_or p.fd fd closed).node [
          | none ↦ none
          | some node ↦ do
            (r, bytes, w') ← fs_node_read node_at t fuel w node (get_or p.fd fd closed).offset count
            some (r, bytes, store s p.id fd (advance (get_or p.fd fd closed) r), w')
        ]
  ]
