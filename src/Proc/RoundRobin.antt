-- ===== src/Proc/RoundRobin.antt =====
-- The order in which the scheduler of newland/arch/x86/src/proc.c takes the processes.
use stardustos.Prelude.{
  Bool-cases, List, Option, Option-cases, [], ap, arith, eq_of_some, false, get_elem?, get_elem?-ge,
  get_elem?-lt, if◌then◌else◌, inl, inr, leb, length, none, refl, set, some, suc, sym, zero, ℕ, ◌%◌,
  ◌+◌, ◌-◌, ◌<◌, ◌==◌, ◌>>=◌, ◌^◌, ◌∙◌, ◌∷◌, ◌≡◌, ◌≤◌,
}
use stardustos.Slist.Laws.{Unique, get_elem?-find-none}
use stardustos.Proc.{
  Proc, Procs, after, first, modify, process_frompid, process_next, ready, running, sched_reccount,
  schedule, set_status,
}
use stardustos.Proc.Table.{AllBelow-get, IsValid, find-ids, ids, ids-modify, length-ids}

-- The index that follows `i` in a ring of `n`.
abbrev pub succ_in : ℕ → ℕ → ℕ
succ_in i n = if i + 1 == n then 0 else i + 1

module _ {N : Type 0} where
  abbrev id_of : Option (Proc N) → Option ℕ
  id_of none = none
  id_of (some p) = some p.id

  id_of-after :
      (ps : List (Proc N)) (i : ℕ) {pid : ℕ}
      → Unique (λ (i : ℕ). i) ◌==◌ (ids ps)
      → get_elem? (ids ps) i ≡ some pid
      → id_of (after pid ps) ≡ get_elem? (ids ps) (suc i)
  unfolding after
  id_of-after [] i u e = cc
  id_of-after (p ∷ []) zero u e = refl
  id_of-after (p ∷ []) (suc i) u e = cc
  id_of-after (p ∷ q ∷ ps) zero u e = ground arith
  id_of-after (p ∷ q ∷ ps) (suc i) {pid} u e = ground (
    arith,
    get_elem?-find-none (λ j. j == p.id) (ids (q ∷ ps)) i {x = pid} u.0 e,
    id_of-after (q ∷ ps) i {pid = pid} u.1 e,
  )

  first-ids :
      (ps : List (Proc N))
      → 0 < length ps
      → (q : Proc N) × (first ps ≡ some q) × (get_elem? (ids ps) 0 ≡ some q.id)
  first-ids [] h = elim h [ ]
  first-ids (p ∷ ps) h = (p, refl, refl)

  -- Behind the current process comes its neighbour in the list, and behind the last one the first.
  pub process_next-ids :
      (s : Procs N) (i : ℕ)
      → IsValid s
      → get_elem? (ids s.processes) i ≡ some s.curr_pid
      → (q : Proc N) × (process_next s ≡ some q)
        × (get_elem? (ids s.processes) (succ_in i (length s.processes)) ≡ some q.id)
  unfolding process_next process_frompid
  process_next-ids s i v e =
      let at = get_elem?-lt (ids s.processes) i e in
      let count = length-ids s.processes in
      let bounds = AllBelow-get s.next_pid (ids s.processes) i v.fresh e in
      let (p, found, same) = find-ids s.processes i e in
      let behind = id_of-after s.processes i v.distinct e in
      elim (Option-cases (after s.curr_pid s.processes)) [
        | inr (q, is_q) ↦
            let next : get_elem? (ids s.processes) (suc i) ≡ some q.id =
              sym behind ∙ ap id_of is_q in
            (
              q,
              ground (arith, v.counted),
              ground (arith, get_elem?-lt (ids s.processes) (suc i) next),
            )
        | inl is_none ↦
            let last = get_elem?-ge (ids s.processes) (suc i) (sym behind ∙ ap id_of is_none) in
            let (q, is_q, head) = first-ids s.processes (omega (arith, at, count)) in
            (q, ground (arith, v.counted), ground (arith, last, at, count, head))
      ]

  -- What one tick does to a table in which the current process stands at index `i`.
  record Ticked (s : Procs N) (i : ℕ) : Type 0 where
    out : Option (ℕ × ℕ)
    s' : Procs N
    runs : schedule s ≡ some (out, s')
    same_ids : ids s'.processes ≡ ids s.processes
    current : get_elem? (ids s.processes) (succ_in i (length s.processes)) ≡ some s'.curr_pid
    valid : IsValid s'

  schedule-Ticked :
      (s : Procs N) (i : ℕ)
      → IsValid s
      → get_elem? (ids s.processes) i ≡ some s.curr_pid
      → Ticked s i
  unfolding schedule process_frompid
  schedule-Ticked s i v e =
      let (p, found, same) = find-ids s.processes i e in
      let (q, next, place) = process_next-ids s i v e in
      let count = length-ids s.processes in
      let some_left : (s.proc_count == 0) ≡ false =
        ground (arith, v.counted, get_elem?-lt (ids s.processes) i e) in
      let ps = modify q.id (set_status running) (modify p.id (set_status ready) s.processes) in
      let kept : ids ps ≡ ids s.processes =
        ids-modify q.id (set_status running) (modify p.id (set_status ready) s.processes)
          (λ _. refl)
        ∙ ids-modify p.id (set_status ready) s.processes (λ _. refl) in
      record {
        out = some (p.id, q.id);
        s' = record s {
          sched_rec = set s.sched_rec (s.ticks % sched_reccount) s.curr_pid;
          ticks = (s.ticks + 1) % 2 ^ 32;
          curr_pid = q.id;
          processes = ps;
        };
        runs = ground (arith, some_left, found, next);
        same_ids = kept;
        current = place;
        valid = record {
          distinct = rw kept v.distinct;
          fresh = rw kept v.fresh;
          counted = omega (arith, v.counted, ap length kept, count, length-ids ps);
          positive = v.positive;
        };
      }

  -- The timer ticks `k` times.
  pub ticks_run : ℕ → Procs N → Option (Procs N)
  ticks_run zero s = some s
  ticks_run (suc k) s = schedule s >>= λ r. ticks_run k r.1

-- `k` steps round a ring of `n`.
turns : ℕ → ℕ → ℕ → ℕ
turns zero i n = i
turns (suc k) i n = turns k (succ_in i n) n

turns_straight : (k i n : ℕ) → i + k < n → turns k i n ≡ i + k
unfolding turns
turns_straight zero i n h = omega arith
turns_straight (suc k) i n h = ground (arith, turns_straight k (i + 1) n)

turns_wrap : (k i n : ℕ) → i < n → n ≤ i + k → k < n → turns k i n ≡ i + k - n
unfolding turns
turns_wrap zero i n h l m = absurd (omega arith)
turns_wrap (suc k) i n h l m = elim (Bool-cases (i + 1 == n)) [
  | inl e ↦ rw e (turns_straight k 0 n (omega arith) ∙ ground arith)
  | inr ne ↦ rw ne (turns_wrap k (i + 1) n (ground arith) (omega arith) (omega arith) ∙ omega arith)
]

module _ {N : Type 0} where
  ticks_run-turns :
      (k : ℕ) (s : Procs N) (i : ℕ)
      → IsValid s
      → get_elem? (ids s.processes) i ≡ some s.curr_pid
      → (s' : Procs N) × (ticks_run k s ≡ some s')
        × (get_elem? (ids s.processes) (turns k i (length s.processes)) ≡ some s'.curr_pid)
  unfolding ticks_run turns
  ticks_run-turns zero s i v e = (s, refl, e)
  ticks_run-turns (suc k) s i v e =
      let n = length s.processes in
      let j = succ_in i n in
      let t = schedule-Ticked s i v e in
      let count : length t.s'.processes ≡ length s.processes =
        sym (length-ids t.s'.processes) ∙ ap length t.same_ids ∙ length-ids s.processes in
      let (s', runs, place) =
        ticks_run-turns k t.s' (succ_in i (length s.processes)) t.valid (rw t.same_ids t.current) in
      (
        s',
        rw (t.runs, ticks_run) runs,
        ap (λ l. get_elem? l (turns k j n)) (sym t.same_ids)
            ∙ ap (λ m. get_elem? (ids t.s'.processes) (turns k j m)) (sym count)
            ∙ place,
      )

  -- In a valid table whose current process is in it, the timer reaches each process in fewer ticks
  -- than there are processes, whatever their states.
  pub ticks_run_reaches_all :
      (s : Procs N) (i j : ℕ) (pid : ℕ)
      → IsValid s
      → get_elem? (ids s.processes) i ≡ some s.curr_pid
      → get_elem? (ids s.processes) j ≡ some pid
      → (k : ℕ) × (k < length s.processes)
        × (s' : Procs N) × (ticks_run k s ≡ some s')
        × (s'.curr_pid ≡ pid)
  ticks_run_reaches_all s i j pid v e goal =
      let n = length s.processes in
      let bi = get_elem?-lt (ids s.processes) i e in
      let bj = get_elem?-lt (ids s.processes) j goal in
      let count = length-ids s.processes in
      let k = if leb i j then j - i else n + j - i in
      let lands : turns k i n ≡ j = elim (Bool-cases (leb i j)) [
        | inl up ↦ rw up (turns_straight (j - i) i n (ground arith) ∙ ground arith)
        | inr down ↦ rw down (
            turns_wrap (n + j - i) i n (omega (arith, bi, count)) (ground arith) (ground arith)
            ∙ ground arith)
      ] in
      let (s', runs, place) = ticks_run-turns k s i v e in
      (
        k,
        ground arith,
        s',
        runs,
        eq_of_some (sym place ∙ ap (get_elem? (ids s.processes)) lands ∙ goal),
      )
