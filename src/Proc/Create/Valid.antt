-- ===== src/Proc/Create/Valid.antt =====
-- The outcomes of `proc_create` in newland/arch/x86/src/proc.c, and the validity of the table.
use stardustos.Prelude.{
  Bool-cases, List, Option, Option-cases, [], ap, arith, inl, inr, length, none, refl, some, subst,
  sym, ℕ, ◌%◌, ◌+◌, ◌<◌, ◌==◌, ◌^◌, ◌∷◌, ◌≡◌, ◌≤◌, ◌⊎◌,
}
use stardustos.Slist.{find}
use stardustos.Proc.{AllBelow, Proc, Procs, modify, process_frompid}
use stardustos.Proc.Table.{IsValid, ids, ids-modify, length-ids}
use stardustos.Proc.Create.{Request, adopt, child_slot, fresh_proc, inherit, insert, proc_create}

pub AllBelow-mono : (n m : ℕ) (is : List ℕ) → n ≤ m → AllBelow n is → AllBelow m is
AllBelow-mono n m [] h b = tt
AllBelow-mono n m (i ∷ is) h b = (b.0, omega arith, AllBelow-mono n m is h b.2)

-- A bound on the ids is not among them.
pub find-bound : (n : ℕ) (is : List ℕ) → AllBelow n is → find (λ j. j == n) is ≡ none
unfolding find
find-bound n [] b = refl
find-bound n (i ∷ is) b = ground (arith, find-bound n is b.2)

pub fresh_proc-id : (N : Type 0) (r : Request) (pid : ℕ) → (fresh_proc {N = N} r pid).id ≡ pid
unfolding fresh_proc
fresh_proc-id N r pid = refl

module _ {N : Type 0} where
  insert-IsValid :
      (s : Procs N) (p : Proc N)
      → IsValid s
      → s.next_pid + 1 < 2 ^ 32
      → p.id ≡ s.next_pid
      → IsValid (insert s p)
  unfolding insert
  insert-IsValid s p v room same = record {
    distinct = (rw same (find-bound s.next_pid (ids s.processes) v.fresh), v.distinct);
    fresh = (
      omega (arith, v.positive),
      omega arith,
      AllBelow-mono s.next_pid ((s.next_pid + 1) % 2 ^ 32) (ids s.processes) (omega arith) v.fresh,
    );
    counted = omega (arith, v.counted);
    positive = omega arith;
  }

  pub modify-IsValid :
      (s : Procs N) (pid : ℕ) (f : Proc N → Proc N)
      → ((p : Proc N) → (f p).id ≡ p.id)
      → IsValid s
      → IsValid (record s { processes = modify pid f s.processes })
  modify-IsValid s pid f same v =
      let kept = ids-modify pid f s.processes same in
      record {
        distinct = rw kept v.distinct;
        fresh = rw kept v.fresh;
        counted = omega (
          arith,
          v.counted,
          ap length kept,
          length-ids s.processes,
          length-ids (modify pid f s.processes),
        );
        positive = v.positive;
      }

  -- A process with a parent, and the slot that the parent found for it.
  pub record IsAdoption (s : Procs N) (r : Request) (s' : Procs N) : Type 0 where
    pub parent_pid : ℕ
    pub index : ℕ
    pub count : ℕ
    pub q : Proc N
    pub given : r.parent ≡ some parent_pid
    pub known : process_frompid s parent_pid ≡ some q
    pub slot : child_slot q ≡ some (index, count)
    pub result :
        s'
        ≡ insert
            (record s { processes = modify q.id (adopt index count s.next_pid) s.processes })
            (inherit q (fresh_proc r s.next_pid))

  pub proc_create-cases :
      (s : Procs N) (r : Request) {out : Option ℕ} {s' : Procs N}
      → proc_create s r ≡ some (out, s')
      → ((out ≡ none) × (s' ≡ s))
        ⊎ ((out ≡ some s.next_pid) × (s' ≡ insert s (fresh_proc r s.next_pid)))
        ⊎ ((out ≡ some s.next_pid) × IsAdoption s r s')
  unfolding proc_create
  proc_create-cases s r {out} {s'} h = elim (Option-cases r.parent) [
    | inl orphan ↦ elim (Bool-cases r.alloc) [
      | inl got ↦ inr (inl (ground arith, ground arith))
      | inr full ↦ inl (ground arith, ground arith)
    ]
    | inr (pp, given) ↦ elim (Bool-cases r.alloc) [
      | inr full ↦ inl (ground arith, ground arith)
      | inl got ↦ elim (Option-cases (process_frompid s pp)) [
        | inl gone ↦ absurd (ground arith)
        | inr (q, known) ↦ elim (Option-cases (child_slot q)) [
          | inl crowded ↦ inl (ground arith, ground arith)
          | inr ((i, count), slot) ↦ inr (
              inr (
                ground arith,
                record {
                  parent_pid = pp;
                  index = i;
                  count = count;
                  q = q;
                  given = given;
                  known = known;
                  slot = slot;
                  result = ground arith;
                },
              ))
        ]
      ]
    ]
  ]

  pub inherit-id : (q : Proc N) (r : Request) (pid : ℕ) → (inherit q (fresh_proc r pid)).id ≡ pid
  unfolding fresh_proc inherit
  inherit-id q r pid = refl

  -- While ids last, a call of `proc_create` on a valid table that meets no fault leaves it valid,
  -- whatever it returns.
  pub proc_create-IsValid :
      (s : Procs N) (r : Request) {out : Option ℕ} {s' : Procs N}
      → IsValid s
      → s.next_pid + 1 < 2 ^ 32
      → proc_create s r ≡ some (out, s')
      → IsValid s'
  proc_create-IsValid s r {out} {s'} v room h =
      elim (proc_create-cases s r {out = out} {s' = s'} h) [
        | inl (_, same) ↦ subst IsValid (sym same) v
        | inr (inl (_, e)) ↦
            subst IsValid (sym e)
              (insert-IsValid s (fresh_proc r s.next_pid) v room (fresh_proc-id N r s.next_pid))
        | inr (inr (_, a)) ↦
            let f = adopt a.index a.count s.next_pid in
            subst IsValid (sym a.result) (
              insert-IsValid (record s { processes = modify a.q.id f s.processes })
                (inherit a.q (fresh_proc r s.next_pid)) (modify-IsValid s a.q.id f (λ _. refl) v)
                room (inherit-id a.q r s.next_pid))
      ]
