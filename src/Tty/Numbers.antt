-- ===== src/Tty/Numbers.antt =====
-- The minor numbers of newland/src/dev/tty.c: what a registration keeps, and which device a removal
-- takes.
use stardustos.Dev.Lookup.{gone, kept}
use stardustos.Dev.{
  Device, Table, dev_minor, device_fromdev, device_fromname, mkdev, register_device,
}
use stardustos.Slist.Laws.{Unique, get_from-eq-get_elem?}
use stardustos.Slist.{find, indexof_from, remove}
use stardustos.Dev.Minors.{
  Numbered, Numbered-register, Numbered-zero, dev_minor-mkdev, devmaj_tty, mkdev-ne,
}
use stardustos.Prelude.{
  Bool, List, Option-cases, [], ap, arith, failed, get_elem?, inl, inr, is_some, length, none, refl,
  some, str_eq, str_eq_refl, strcpy_into, suc, sym, true, value, ℕ, ◌+◌, ◌-◌, ◌<◌, ◌∙◌, ◌∷◌, ◌≡◌,
}
use stardustos.Dev.Invariant
use stardustos.Dev.Invariant.{
  IsValid, register_device-IsValid, unregister_present, without, without-IsValid,
}
use stardustos.Tty.{
  Tty, Ttys, register_tty, titled, tty_fromname, tty_get, tty_indexof, unregister_tty,
}

module _ {B : Type 0} where
  abbrev pub names : List (Tty B) → List (List ℕ)
  names [] = []
  names (b ∷ bs) = b.name ∷ names bs

  pub length-names : (bs : List (Tty B)) → length (names bs) ≡ length bs
  length-names [] = refl
  length-names (b ∷ bs) = ap suc (length-names bs)

module _ {B O : Type 0} where
  -- The device table is valid, the names are different, the count is right, and the terminals
  -- have the minor numbers 0, 1, … in the order in which they came.
  pub record IsConsistent (s : Ttys B O) : Type 0 where
    pub table : Invariant.IsValid s.devs
    pub distinct : Unique (λ (b : Tty B). b.name) str_eq s.ttys
    pub counted : s.tty_cnt ≡ length s.ttys
    pub numbered : Numbered s.devs devmaj_tty (names s.ttys)

  abbrev pub added : Ttys B O → Table O → List ℕ → B → Ttys B O
  added s devs' name opts = record {
    devs = devs';
    ttys = record { name = name; opts = opts } ∷ s.ttys;
    tty_cnt = s.tty_cnt + 1;
  }

  register_tty-inversion :
      (fsopts : O) (s : Ttys B O) (alloc alloc_dev : Bool) (name : List ℕ) (opts : B) (n : ℕ)
      {s' : Ttys B O}
      → register_tty fsopts s alloc alloc_dev name opts ≡ some (value n, s')
      → (devs' : Table O) × (m : ℕ) × (register_device s.devs alloc_dev
            (mkdev devmaj_tty s.tty_cnt)
            name
            fsopts
            0
          ≡ some (value m, devs'))
        × (tty_fromname s name ≡ none)
        × (s' ≡ added s devs' name opts)
  unfolding register_tty strcpy_into
  register_tty-inversion fsopts s alloc alloc_dev name opts n h =
      elim (Option-cases
        (register_device s.devs alloc_dev (mkdev devmaj_tty s.tty_cnt) name fsopts 0)) [
          | inl e ↦ absurd (ground arith)
          | inr ((value m, devs'), e) ↦ (devs', m, e, ground arith, ground arith)
          | inr ((failed x, devs'), e) ↦ absurd (ground arith)
        ]

  -- Below 256 terminals a registration that succeeds keeps the table consistent: the new device
  -- gets the next minor number and the front of the list.
  pub register_tty-IsConsistent :
      (fsopts : O) (s : Ttys B O) (alloc alloc_dev : Bool) (name : List ℕ) (opts : B) (n : ℕ)
      {s' : Ttys B O}
      → IsConsistent s
      → s.tty_cnt < 256
      → register_tty fsopts s alloc alloc_dev name opts ≡ some (value n, s')
      → IsConsistent s'
  unfolding tty_fromname
  register_tty-IsConsistent fsopts s alloc alloc_dev name opts n c few h =
      let (devs', m, reg, fresh, e) =
        register_tty-inversion fsopts s alloc alloc_dev name opts n h in
      let count : length (names s.ttys) ≡ s.tty_cnt = length-names s.ttys ∙ sym c.counted in
      rw e (record {
        table = Invariant.register_device-IsValid s.devs alloc_dev _ name fsopts 0 c.table reg;
        distinct = (fresh, c.distinct);
        counted = omega (arith, c.counted);
        numbered =
            Numbered-register s.devs alloc_dev devmaj_tty name (names s.ttys) fsopts 0 m
              (omega arith) (rw count few) c.numbered (rw count reg);
      })

  -- A node whose minor number is `mi` is served by the terminal at index `mi` of the list.
  pub tty_get-minor :
      (s : Ttys B O) (mi : ℕ)
      → mi < 256
      → tty_get s (dev_minor (mkdev devmaj_tty mi)) ≡ get_elem? s.ttys mi
  unfolding tty_get
  tty_get-minor s mi h =
      rw (dev_minor-mkdev devmaj_tty mi (omega arith) h)
        (get_from-eq-get_elem? s.ttys 0 mi (omega arith) ∙ ap (get_elem? s.ttys) (omega arith))

  module _ (s : Ttys B O) (b : Tty B) (bs : List (Tty B)) (e : s.ttys ≡ b ∷ bs) where
    fromname-newest : tty_fromname s b.name ≡ some b
    unfolding tty_fromname find
    fromname-newest = rw (e, find, str_eq_refl b.name)

    indexof-newest : tty_indexof s b ≡ 0
    unfolding tty_indexof indexof_from
    indexof-newest = ground (arith, str_eq_refl b.name)

    remove-newest : remove (titled b.name) s.ttys ≡ bs
    unfolding remove
    remove-newest = rw (e, remove, str_eq_refl b.name)

    unregister_tty-newest :
        {d : Device O}
        → is_some (device_fromname s.devs b.name) ≡ true
        → device_fromdev s.devs (mkdev devmaj_tty 0) ≡ some d
        → unregister_tty s b.name ≡ (
          value 0,
          record {
            devs = Invariant.without s.devs (mkdev devmaj_tty 0);
            ttys = bs;
            tty_cnt = s.tty_cnt - 1;
          },
        )
    unfolding unregister_tty
    unregister_tty-newest known zero_known = ground (
      arith,
      fromname-newest,
      indexof-newest,
      remove-newest,
      Invariant.unregister_present s.devs (mkdev devmaj_tty 0) zero_known,
    )

  -- In a consistent table with an older terminal about, removing the newest one succeeds, but the
  -- device table loses the oldest terminal, whose minor number is 0, and keeps the one that was to
  -- go.
  pub unregister_tty_takes_oldest :
      (s : Ttys B O) (b : Tty B) (bs : List (Tty B))
      → IsConsistent s
      → s.ttys ≡ b ∷ bs
      → 0 < length bs
      → length bs < 256
      → is_some (device_fromname s.devs b.name) ≡ true
      → ((unregister_tty s b.name).0 ≡ value 0)
        × (device_fromdev (unregister_tty s b.name).1.devs (mkdev devmaj_tty 0) ≡ none)
        × ((d : Device O) × (device_fromdev
                (unregister_tty s b.name).1.devs
                (mkdev devmaj_tty (length bs))
              ≡ some d)
            × (d.name ≡ b.name))
  unregister_tty_takes_oldest s b bs c e older few known =
      let numbered : Numbered s.devs devmaj_tty (b.name ∷ names bs) = rw e at c.numbered in
      let count : length (names bs) ≡ length bs = length-names bs in
      let (z, zero_known) =
        Numbered-zero s.devs devmaj_tty (names bs) (rw count older) numbered.1 in
      rw (unregister_tty-newest s b bs e known zero_known) (
        refl,
        gone s.devs (mkdev devmaj_tty 0) c.table,
        (
          numbered.0.0,
          kept s.devs (mkdev devmaj_tty 0) (mkdev devmaj_tty (length bs))
                (mkdev-ne devmaj_tty 0 (length bs) (omega arith) (omega arith) few (omega arith))
              ∙ rw count at numbered.0.1,
          numbered.0.2,
        ),
      )

  -- The only terminal is removed from both tables.
  pub unregister_tty_only :
      (s : Ttys B O) (b : Tty B)
      → IsConsistent s
      → s.ttys ≡ b ∷ []
      → is_some (device_fromname s.devs b.name) ≡ true
      → ((unregister_tty s b.name).0 ≡ value 0)
        × (device_fromdev (unregister_tty s b.name).1.devs (mkdev devmaj_tty 0) ≡ none)
        × IsConsistent (unregister_tty s b.name).1
  unregister_tty_only s b c e known =
      let numbered : Numbered s.devs devmaj_tty (b.name ∷ []) = rw e at c.numbered in
      rw (unregister_tty-newest s b [] e known numbered.0.1) (
        refl,
        gone s.devs (mkdev devmaj_tty 0) c.table,
        record {
          table = without-IsValid s.devs (mkdev devmaj_tty 0) c.table numbered.0.1;
          distinct = tt;
          counted = omega (arith, c.counted, ap length e);
          numbered = tt;
        },
      )
