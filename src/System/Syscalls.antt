-- ===== src/System/Syscalls.antt =====
-- newland/src/syscall.c with its table newland/include/newland/__syscall_handlers.h: a system call by its
-- number. `string_at` is the C string at an address of the caller's memory `m`.
use stardustos.Prelude.{
  Bool, List, Option, [], arith, as_size, einval, enosys, failed, get_or, if◌then◌else◌, leb,
  length, none, refl, some, true, ℕ, ◌<◌, ◌>>=◌, ◌^◌, ◌||◌, ◌∷◌, ◌≡◌,
}
use stardustos.System.{nl_close, nl_getbuildprop, nl_open, nl_read, nl_write}
use stardustos.Log.{bytes_at}
use stardustos.Fs.{Node, Tables}
use stardustos.Proc.{Procs}

pub data Syscall : Type 0 where
  of_getbuildprop of_open of_close of_write of_read : Syscall

-- `syscall_handlers`, where `none` is NULL.
abbrev pub syscall_handlers : List (Option Syscall)
syscall_handlers =
    some of_getbuildprop ∷ some of_open ∷ some of_close ∷ some of_write ∷ some of_read ∷ []

module _ {W : Type 0} (node_at : W → ℕ → Node W) (fuel : ℕ) (t : Tables W) (string_at : ℕ → List ℕ)
    (m : ℕ → ℕ) where
  -- The call of a handler with its first three arguments, which are all that it has; `nvk` as in
  -- `nl_getbuildprop`. The results are the number, the bytes that the handler gives to the caller,
  -- the processes and the machine.
  unfoldable pub call_handler :
      Bool → Procs ℕ → W → Syscall → ℕ → ℕ → ℕ → Option (ℕ × List ℕ × Procs ℕ × W)
  unfolding bytes_at
  call_handler nvk s w of_getbuildprop a b c = some (as_size (nl_getbuildprop nvk a), [], s, w)
  call_handler nvk s w of_open a b c =
      nl_open node_at fuel t s w (string_at a) b >>= λ r. some (as_size r.0, [], r.1, r.2)
  call_handler nvk s w of_close a b c =
      nl_close node_at s w a >>= λ r. some (as_size r.0, [], r.1, r.2)
  call_handler nvk s w of_write a b c =
      nl_write node_at fuel t s w a (bytes_at m b c) >>= λ r. some (r.0, [], r.1, r.2)
  call_handler nvk s w of_read a b c = nl_read node_at fuel t s w a c

  -- `i` is the 32 bits of an `int`.
  unfoldable pub syscall_run :
      Bool → Procs ℕ → W → ℕ → ℕ → ℕ → ℕ → Option (ℕ × List ℕ × Procs ℕ × W)
  unfolding call_handler
  syscall_run nvk s w i a b c =
      if leb (2 ^ 31) i || leb (length syscall_handlers) i
      then some (as_size (failed einval), [], s, w)
      else elim (get_or syscall_handlers i none) [
        | none ↦ some (as_size (failed enosys), [], s, w)
        | some handler ↦ call_handler nvk s w handler a b c
      ]

  -- A number past the five handlers, negative ones among them, is refused, and nothing changes.
  pub syscall_run_unknown :
      (nvk : Bool) (s : Procs ℕ) (w : W) (i a b c : ℕ)
      → 4 < i
      → syscall_run nvk s w i a b c ≡ some (as_size (failed einval), [], s, w)
  unfolding syscall_run
  syscall_run_unknown nvk s w i a b c past =
      let refused : (leb (2 ^ 31) i || leb 5 i) ≡ true = ground arith in rw refused refl
