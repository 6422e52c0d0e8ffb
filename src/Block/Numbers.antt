-- ===== src/Block/Numbers.antt =====
-- The minor numbers of newland/src/dev/block.c: what a registration keeps, and which device a
-- removal takes.
use stardustos.Dev.Lookup.{kept, gone}
use stardustos.Slist.{indexof_from, find, remove}
use stardustos.Prelude.{
  Bool, List, Option-cases, [], ap, arith, failed, get_elem?, inl, inr, is_some, length, none, refl,
  some, str_eq, str_eq_refl, strcpy_into, suc, sym, true, value, ℕ, ◌%◌, ◌*◌, ◌+◌, ◌-◌, ◌<◌, ◌^◌,
  ◌∙◌, ◌∷◌, ◌≡◌,
}
use stardustos.Slist.Laws.{Unique, get_from-eq-get_elem?}
use stardustos.Dev.{
  Device, Table, dev_minor, device_fromdev, device_fromname, mkdev, register_device,
}
use stardustos.Dev.Invariant
use stardustos.Dev.Invariant.{
  IsValid, register_device-IsValid, unregister_present, without, without-IsValid,
}
use stardustos.Dev.Minors.{
  Numbered, Numbered-register, Numbered-zero, dev_minor-mkdev, devmaj_block, mkdev-ne,
}
use stardustos.Block.{
  BlockDevice, BlockOpts, Blocks, blkdev_fromname, blkdev_get, blkdev_indexof, named,
  register_blkdev, unregister_blkdev,
}

module _ {W : Type 0} where
  abbrev pub names : List (BlockDevice W) → List (List ℕ)
  names [] = []
  names (b ∷ bs) = b.info.name ∷ names bs

  pub length-names : (bs : List (BlockDevice W)) → length (names bs) ≡ length bs
  length-names [] = refl
  length-names (b ∷ bs) = ap suc (length-names bs)

module _ {W O : Type 0} where
  -- The device table is valid, the names are different, the count is right, and the block devices
  -- have the minor numbers 0, 1, … in the order in which they came.
  pub record IsConsistent (s : Blocks W O) : Type 0 where
    pub table : Invariant.IsValid s.devs
    pub distinct : Unique (λ (b : BlockDevice W). b.info.name) str_eq s.block_devices
    pub counted : s.block_device_count ≡ length s.block_devices
    pub numbered : Numbered s.devs devmaj_block (names s.block_devices)

  abbrev pub added : Blocks W O → Table O → List ℕ → ℕ → ℕ → BlockOpts W → Blocks W O
  added s devs' name blksize blkcnt opts = record {
    devs = devs';
    block_devices =
        record { info = record { size = blksize; count = blkcnt; name = name }; opts = opts }
        ∷ s.block_devices;
    block_device_count = s.block_device_count + 1;
  }

  register_blkdev-inversion :
      (fsopts : O) (s : Blocks W O) (alloc alloc_dev : Bool) (name : List ℕ) (blksize blkcnt : ℕ)
      (opts : BlockOpts W) (n : ℕ) {s' : Blocks W O}
      → register_blkdev fsopts s alloc alloc_dev name blksize blkcnt opts ≡ some (value n, s')
      → (devs' : Table O) × (m : ℕ) × (register_device s.devs alloc_dev
            (mkdev devmaj_block s.block_device_count)
            name
            fsopts
            (blksize * blkcnt % 2 ^ 32)
          ≡ some (value m, devs'))
        × (blkdev_fromname s name ≡ none)
        × (s' ≡ added s devs' name blksize blkcnt opts)
  unfolding register_blkdev strcpy_into
  register_blkdev-inversion fsopts s alloc alloc_dev name blksize blkcnt opts n h =
      elim (Option-cases (
        register_device s.devs alloc_dev (mkdev devmaj_block s.block_device_count) name fsopts
          (blksize * blkcnt % 2 ^ 32))) [
            | inl e ↦ absurd (ground arith)
            | inr ((value m, devs'), e) ↦ (devs', m, e, ground arith, ground arith)
            | inr ((failed x, devs'), e) ↦ absurd (ground arith)
          ]

  -- Below 256 block devices a registration that succeeds keeps the table consistent: the new device
  -- gets the next minor number and the front of the list.
  pub register_blkdev-IsConsistent :
      (fsopts : O) (s : Blocks W O) (alloc alloc_dev : Bool) (name : List ℕ) (blksize blkcnt : ℕ)
      (opts : BlockOpts W) (n : ℕ) {s' : Blocks W O}
      → IsConsistent s
      → s.block_device_count < 256
      → register_blkdev fsopts s alloc alloc_dev name blksize blkcnt opts ≡ some (value n, s')
      → IsConsistent s'
  unfolding blkdev_fromname
  register_blkdev-IsConsistent fsopts s alloc alloc_dev name blksize blkcnt opts n c few h =
      let (devs', m, reg, fresh, e) =
        register_blkdev-inversion fsopts s alloc alloc_dev name blksize blkcnt opts n h in
      let count : length (names s.block_devices) ≡ s.block_device_count =
        length-names s.block_devices ∙ sym c.counted in
      let size = blksize * blkcnt % 2 ^ 32 in
      rw e (record {
        table = Invariant.register_device-IsValid s.devs alloc_dev _ name fsopts size c.table reg;
        distinct = (fresh, c.distinct);
        counted = omega (arith, c.counted);
        numbered =
            Numbered-register s.devs alloc_dev devmaj_block name (names s.block_devices) fsopts size
              m (omega arith) (rw count few) c.numbered (rw count reg);
      })

  -- A node whose minor number is `mi` is served by the block device at index `mi` of the list.
  pub blkdev_get-minor :
      (s : Blocks W O) (mi : ℕ)
      → mi < 256
      → blkdev_get s (dev_minor (mkdev devmaj_block mi)) ≡ get_elem? s.block_devices mi
  unfolding blkdev_get
  blkdev_get-minor s mi h = rw (dev_minor-mkdev devmaj_block mi (omega arith) h) (
      get_from-eq-get_elem? s.block_devices 0 mi (omega arith)
      ∙ ap (get_elem? s.block_devices) (omega arith))

  module _ (s : Blocks W O) (b : BlockDevice W) (bs : List (BlockDevice W))
      (e : s.block_devices ≡ b ∷ bs) where
    fromname-newest : blkdev_fromname s b.info.name ≡ some b
    unfolding blkdev_fromname find
    fromname-newest = rw (e, find, str_eq_refl b.info.name)

    indexof-newest : blkdev_indexof s b ≡ 0
    unfolding blkdev_indexof indexof_from
    indexof-newest = ground (arith, str_eq_refl b.info.name)

    remove-newest : remove (named b.info.name) s.block_devices ≡ bs
    unfolding remove
    remove-newest = rw (e, remove, str_eq_refl b.info.name)

    unregister_blkdev-newest :
        {d : Device O}
        → is_some (device_fromname s.devs b.info.name) ≡ true
        → device_fromdev s.devs (mkdev devmaj_block 0) ≡ some d
        → unregister_blkdev s b.info.name ≡ (
          value 0,
          record {
            devs = Invariant.without s.devs (mkdev devmaj_block 0);
            block_devices = bs;
            block_device_count = s.block_device_count - 1;
          },
        )
    unfolding unregister_blkdev
    unregister_blkdev-newest known zero_known = ground (
      arith,
      fromname-newest,
      indexof-newest,
      remove-newest,
      Invariant.unregister_present s.devs (mkdev devmaj_block 0) zero_known,
    )

  -- In a consistent table with an older block device about, removing the newest one succeeds, but
  -- the device table loses the oldest block device, whose minor number is 0, and keeps the one that
  -- was to go.
  pub unregister_blkdev_takes_oldest :
      (s : Blocks W O) (b : BlockDevice W) (bs : List (BlockDevice W))
      → IsConsistent s
      → s.block_devices ≡ b ∷ bs
      → 0 < length bs
      → length bs < 256
      → is_some (device_fromname s.devs b.info.name) ≡ true
      → ((unregister_blkdev s b.info.name).0 ≡ value 0)
        × (device_fromdev (unregister_blkdev s b.info.name).1.devs (mkdev devmaj_block 0) ≡ none)
        × ((d : Device O) × (device_fromdev
                (unregister_blkdev s b.info.name).1.devs
                (mkdev devmaj_block (length bs))
              ≡ some d)
            × (d.name ≡ b.info.name))
  unregister_blkdev_takes_oldest s b bs c e older few known =
      let numbered : Numbered s.devs devmaj_block (b.info.name ∷ names bs) = rw e at c.numbered in
      let count : length (names bs) ≡ length bs = length-names bs in
      let (z, zero_known) =
        Numbered-zero s.devs devmaj_block (names bs) (rw count older) numbered.1 in
      rw (unregister_blkdev-newest s b bs e known zero_known) (
        refl,
        gone s.devs (mkdev devmaj_block 0) c.table,
        (
          numbered.0.0,
          kept s.devs (mkdev devmaj_block 0) (mkdev devmaj_block (length bs))
                (mkdev-ne devmaj_block 0 (length bs) (omega arith) (omega arith) few (omega arith))
              ∙ rw count at numbered.0.1,
          numbered.0.2,
        ),
      )

  -- The only block device is removed from both tables.
  pub unregister_blkdev_only :
      (s : Blocks W O) (b : BlockDevice W)
      → IsConsistent s
      → s.block_devices ≡ b ∷ []
      → is_some (device_fromname s.devs b.info.name) ≡ true
      → ((unregister_blkdev s b.info.name).0 ≡ value 0)
        × (device_fromdev (unregister_blkdev s b.info.name).1.devs (mkdev devmaj_block 0) ≡ none)
        × IsConsistent (unregister_blkdev s b.info.name).1
  unregister_blkdev_only s b c e known =
      let numbered : Numbered s.devs devmaj_block (b.info.name ∷ []) = rw e at c.numbered in
      rw (unregister_blkdev-newest s b [] e known numbered.0.1) (
        refl,
        gone s.devs (mkdev devmaj_block 0) c.table,
        record {
          table = without-IsValid s.devs (mkdev devmaj_block 0) c.table numbered.0.1;
          distinct = tt;
          counted = omega (arith, c.counted, ap length e);
          numbered = tt;
        },
      )
