-- ===== src/Proc/Signal.antt =====
-- Signals in newland/arch/x86/src/proc.c: entering and leaving a handler, and the faults of the CPU
-- that become signals. The numbers are those of libraries/libc/include/signal.h, and the memory is
-- a byte at each address.
use stardustos.Prelude.{
  Bool, List, Option, Ret, [], arith, einprogress, eintr, enosys, failed, false, if◌then◌else◌,
  length, none, not, some, true, value, ℕ, ◌%◌, ◌+◌, ◌-◌, ◌==◌, ◌^◌, ◌||◌, ◌∷◌, ◌≡◌,
}
use stardustos.Proc.{Proc, Procs, modify, process_curr, zombie}

abbrev pub sigfpe : ℕ
sigfpe = 1

abbrev pub sigkill : ℕ
sigkill = 2

abbrev pub sigsegv : ℕ
sigsegv = 3

abbrev pub sigstkflt : ℕ
sigstkflt = 4

abbrev pub sigill : ℕ
sigill = 5

-- `memcpy` of some bytes to an address
pub write_bytes : (ℕ → ℕ) → ℕ → List ℕ → ℕ → ℕ
write_bytes m addr [] = m
write_bytes m addr (b ∷ bs) = write_bytes (λ a. if addr == a then b else m a) (addr + 1) bs

-- The signals that end a process without a handler.
unfoldable pub is_fatal : ℕ → Bool
is_fatal signum = signum == sigkill || signum == sigsegv || signum == sigstkflt || signum == sigill

-- Which signal a CPU exception becomes.
unfoldable pub signal_of : ℕ → Option ℕ
signal_of int_no =
    if int_no == 0x06
    then some sigill
    else if int_no == 0x10
    then some sigfpe
    else if int_no == 0x0c
    then some sigstkflt
    else if int_no == 0x0e
    then some sigsegv
    else none

module _ {N : Type 0} where
  -- The result is the new stack pointer, as an `int`.
  unfoldable pub proc_pushstack : (ℕ → ℕ) → Proc N → List ℕ → ℕ × (ℕ → ℕ) × Proc N
  unfolding write_bytes
  proc_pushstack m p bytes =
      let esp = (p.esp + 2 ^ 32 - length bytes % 2 ^ 32) % 2 ^ 32 in
      (esp, write_bytes m esp bytes, record p { esp = esp })

  -- `bytes` is what `data` points to, empty if `datasz` is 0 or `data` is NULL.
  unfoldable pub proc_sigenter : (ℕ → ℕ) → Proc N → ℕ → List ℕ → Ret × (ℕ → ℕ) × Proc N
  unfolding is_fatal
  proc_sigenter m p signum bytes =
      if p.issignaling
      then (failed einprogress, m, p)
      else if not p.signal_handler
      then (if is_fatal signum
          then (value 0, m, record p { status = zombie })
          else (failed enosys, m, p))
      else (let p' : Proc N = record p { issignaling = true; signum = signum } in
          elim bytes [
            | [] ↦ (value 0, m, p')
            | b ∷ bs ↦ let (_, m', p'') = proc_pushstack m p' (b ∷ bs) in (value 0, m', p'')
          ])

  unfoldable pub proc_sigleave : Proc N → Ret × Proc N
  proc_sigleave p =
      if not p.issignaling
      then (failed eintr, p)
      else (value 0, record p { issignaling = false; signum = 0 })

  -- `none` where the handler calls `halt`. No handler here takes data, so memory stays.
  unfoldable pub proc_handle_interrupt : (ℕ → ℕ) → Procs N → ℕ → Option (Procs N)
  unfolding signal_of
  proc_handle_interrupt m s int_no = elim (process_curr s) [
    | none ↦ none
    | some curr ↦ elim (signal_of int_no) [
      | none ↦ some s
      | some signum ↦ some (record s {
        processes = modify curr.id (λ p. (proc_sigenter m p signum []).2) s.processes;
      })
    ]
  ]

  -- A process that is outside a handler, and has one, is back outside after it has entered and left;
  -- only the stack pointer has moved, and a second signal in between is refused.
  pub proc_sigleave-proc_sigenter :
      (m : ℕ → ℕ) (p : Proc N) (signum second : ℕ) (bytes more : List ℕ)
      → p.issignaling ≡ false
      → p.signal_handler ≡ true
      → (proc_sigleave (proc_sigenter m p signum bytes).2
          ≡ (value 0, record p { signum = 0; esp = (proc_sigenter m p signum bytes).2.esp }))
        × ((proc_sigenter
              (proc_sigenter m p signum bytes).1
              (proc_sigenter m p signum bytes).2
              second
              more).0
            ≡ failed einprogress)
  unfolding proc_sigenter proc_sigleave proc_pushstack
  proc_sigleave-proc_sigenter m p signum second [] more outside handled =
      (ground arith, ground arith)
  proc_sigleave-proc_sigenter m p signum second (b ∷ bs) more outside handled =
      (ground arith, ground arith)
