-- ===== src/System/Descriptors.antt =====
-- The descriptors of newland/src/system.c: which one `nl_open` takes, the state behind `nl_close`,
-- and the offset behind a failed `nl_write`.
use stardustos.Proc.Table.{find-modify}
use stardustos.Slist.Laws.{find-test}
use stardustos.Slist.{find}
use stardustos.Prelude.{
  Bool-cases, Errno, List, Option-cases, [], ap, arith, as_size, errno_code, failed, false, get_or,
  inl, inr, is_some, length, none, refl, set, some, subst, suc, sym, true, value, zero, ℕ, ◌%◌, ◌+◌,
  ◌-◌, ◌<◌, ◌^◌, ◌∙◌, ◌∷◌, ◌≡◌, ◌≤◌,
}
use stardustos.System.{
  advance, bad_fd, clear_fd, closed, free_from, nl_close, nl_open, nl_write, set_fd, store,
}
use stardustos.Fs.{Fd, Node, Tables}
use stardustos.Fs.Files.{fs_node_close, fs_node_write}
use stardustos.Proc.{Proc, Procs, has_pid, process_curr, process_frompid}

-- Descriptor `i` is closed, and every one below it is open.
pub IsLowest : List (Fd ℕ) → ℕ → Type 0
IsLowest fds i =
    (i < length fds)
    × (is_some (get_or fds i closed).node ≡ false)
    × ((j : ℕ) → j < i → is_some (get_or fds j closed).node ≡ true)

IsLowest-cons :
    (f : Fd ℕ) (fs : List (Fd ℕ)) (k : ℕ)
    → is_some f.node ≡ true
    → IsLowest fs k
    → IsLowest (f ∷ fs) (suc k)
unfolding IsLowest
IsLowest-cons f fs k used (inside, free, below) =
    (omega arith, free, elim [ zero ↦ λ h. used | suc j ↦ λ h. below j (omega arith) ])

free_from-lem :
    (fds : List (Fd ℕ)) (start : ℕ) {i : ℕ}
    → free_from fds start ≡ some i
    → (k : ℕ) × (i ≡ start + k) × IsLowest fds k
unfolding free_from IsLowest
free_from-lem [] start e = absurd (cc)
free_from-lem (f ∷ fs) start {i} e = elim (Bool-cases (is_some f.node)) [
  | inl used ↦
      let (k, place, low) = free_from-lem fs (start + 1) {i = i} (sym (rw used refl) ∙ e) in
      (suc k, omega (arith, place), IsLowest-cons f fs k used low)
  | inr free ↦ (0, ground arith, (omega arith, free, λ j h. absurd (omega arith)))
]

errno_code-positive : (e : Errno) → 0 < errno_code e
unfolding errno_code
errno_code-positive e = ground arith

get_or-set_shut :
    (fds : List (Fd ℕ)) (i : ℕ) (f : Fd ℕ)
    → f.node ≡ none
    → (get_or (set fds i f) i closed).node ≡ none
get_or-set_shut [] i f shut = refl
get_or-set_shut (g ∷ fds) zero f shut = shut
get_or-set_shut (g ∷ fds) (suc i) f shut = get_or-set_shut fds i f shut

-- Adding a failed result takes the error's number off.
as_size-back :
    (o : ℕ) (e : Errno)
    → errno_code e ≤ o
    → o < 2 ^ 32
    → (o + as_size (failed e)) % 2 ^ 32 ≡ o - errno_code e
unfolding as_size
as_size-back o e low high = let pos = errno_code-positive e in omega (arith, pos)

-- A write to a descriptor of the current process leaves it the current one.
process_curr-store :
    (s : Procs ℕ) (p : Proc ℕ) (i : ℕ) (f : Fd ℕ)
    → process_curr s ≡ some p
    → process_curr (store s p.id i f) ≡ some (set_fd i f p)
unfolding process_curr process_frompid store
process_curr-store s p i f e =
    let found : find (has_pid s.curr_pid) s.processes ≡ some p = ground arith in
    let same = find-test (has_pid s.curr_pid) s.processes found in
    let write = find-modify p.id s.curr_pid (set_fd i f) s.processes (λ q. refl) in
    ground (arith, found, same, write)

module _ {W : Type 0} (node_at : W → ℕ → Node W) (fuel : ℕ) (t : Tables W) where
  -- The descriptor that `nl_open` returns is the lowest one that was closed in the current process.
  pub nl_open-IsLowest :
      (s : Procs ℕ) (w : W) (path : List ℕ) (mode : ℕ) (p : Proc ℕ)
      → process_curr s ≡ some p
      → {i : ℕ} {s' : Procs ℕ} {w' : W}
      → nl_open node_at fuel t s w path mode ≡ some (value i, s', w')
      → IsLowest p.fd i
  unfolding nl_open
  nl_open-IsLowest s w path mode p current {i} e = elim (Option-cases (free_from p.fd 0)) [
    | inl full ↦ absurd (ground (arith, current, full, e))
    | inr (k, free) ↦
        let same : i ≡ k = ground (arith, current, free, e) in
        let (k', place, low) = free_from-lem p.fd 0 {i = k} free in
        subst (IsLowest p.fd) (omega (arith, place, same)) low
  ]

module _ {W : Type 0} (node_at : W → ℕ → Node W) where
  nl_close-store :
      (s : Procs ℕ) (w : W) (fd : ℕ) (p : Proc ℕ) (s' : Procs ℕ) (w' : W)
      → process_curr s ≡ some p
      → nl_close node_at s w fd ≡ some (value 0, s', w')
      → (bad_fd fd ≡ false) × (f : Fd ℕ) × (s' ≡ store s p.id fd (clear_fd f))
  unfolding nl_close
  nl_close-store s w fd p s' w' current e =
      let fds = get_or p.fd fd closed in
      elim (Option-cases (get_or p.fd fd closed).node) [
        | inl shut ↦ absurd (ground (arith, current, shut, e))
        | inr (node, used) ↦ (
          ground (arith, current, used, e),
          (fs_node_close node_at w node (get_or p.fd fd closed)).1,
          ground (arith, current, used, e),
        )
      ]

  nl_close_shut :
      (s : Procs ℕ) (w : W) (fd : ℕ) (p : Proc ℕ)
      → process_curr s ≡ some p
      → bad_fd fd ≡ false
      → (get_or p.fd fd closed).node ≡ none
      → nl_close node_at s w fd ≡ none
  unfolding nl_close
  nl_close_shut s w fd p current good shut = ground (arith, current, good, shut)

  -- `nl_close` of a descriptor that the current process has closed with success is a fault: the
  -- node is NULL, and nothing tests it.
  pub nl_close_twice :
      (s : Procs ℕ) (w : W) (fd : ℕ) (p : Proc ℕ) (s' : Procs ℕ) (w' : W)
      → process_curr s ≡ some p
      → nl_close node_at s w fd ≡ some (value 0, s', w')
      → nl_close node_at s' w' fd ≡ none
  unfolding clear_fd
  nl_close_twice s w fd p s' w' current e =
      let (good, f, same) = nl_close-store s w fd p s' w' current e in
      let q = set_fd fd (clear_fd f) p in
      let now : process_curr s' ≡ some q =
        ap process_curr same ∙ process_curr-store s p fd (clear_fd f) current in
      nl_close_shut s' w' fd (set_fd fd (clear_fd f) p) now good
        (get_or-set_shut p.fd fd (clear_fd f) refl)

  -- A failed write to an open descriptor moves the offset, where it is large enough, back by the
  -- error's number.
  pub nl_write_rewinds :
      (fuel : ℕ) (t : Tables W) (s : Procs ℕ) (w : W) (fd : ℕ) (buff : List ℕ) (p : Proc ℕ)
      (node : ℕ) (e : Errno) (w' : W)
      → process_curr s ≡ some p
      → bad_fd fd ≡ false
      → (get_or p.fd fd closed).node ≡ some node
      → fs_node_write node_at t fuel w node (get_or p.fd fd closed).offset buff
        ≡ some (as_size (failed e), w')
      → errno_code e ≤ (get_or p.fd fd closed).offset
      → (get_or p.fd fd closed).offset < 2 ^ 32
      → nl_write node_at fuel t s w fd buff
        ≡ some (
          as_size (failed e),
          store s p.id fd (record (get_or p.fd fd closed) {
            offset = (get_or p.fd fd closed).offset - errno_code e;
          }),
          w',
        )
  unfolding nl_write advance
  nl_write_rewinds fuel t s w fd buff p node e w' current good open_at written low high =
      let moved = as_size-back (get_or p.fd fd closed).offset e low high in
      ground (arith, current, good, open_at, written, moved)
