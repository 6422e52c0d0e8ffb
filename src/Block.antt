-- ===== src/Block.antt =====
-- newland/src/dev/block.c: block devices, which are devices of the major number DEVMAJ_BLOCK.
-- `W` is the hardware behind the drivers, and `O` is `fs_node_opts_t`.
use stardustos.Prelude.{
  Bool, List, Option, Ret, [], as_size, eexist, einval, enodev, enomem, enosys, failed,
  if◌then◌else◌, is_some, name_max, none, size_minus_one, some, str_eq, strcpy_into, value, ℕ, ◌%◌,
  ◌*◌, ◌+◌, ◌-◌, ◌/◌, ◌==◌, ◌>>=◌, ◌^◌, ◌||◌, ◌∷◌,
}
use stardustos.Slist.{find, get_from, indexof_from, remove}
use stardustos.Dev.{Table, dev_minor, device_fromname, mkdev, register_device, unregister_device}
use stardustos.Dev.Minors.{devmaj_block}
pub mod Numbers
pub mod Files
pub mod Examples

-- What `blkdev_t` says of a device.
pub record BlockInfo : Type 0 where
  pub size : ℕ
  pub count : ℕ
  pub name : List ℕ

-- `blkdev_opts_t`; `none` is a NULL handler. A call takes the device, the `uint16_t` block number
-- and a size, or the bytes to write; it returns a `size_t`.
pub record BlockOpts (W : Type 0) : Type 0 where
  pub read_block : Option (W → BlockInfo → ℕ → ℕ → ℕ × List ℕ × W)
  pub write_block : Option (W → BlockInfo → ℕ → List ℕ → ℕ × W)

pub record BlockDevice (W : Type 0) : Type 0 where
  pub info : BlockInfo
  pub opts : BlockOpts W

-- The device table beside `block_devices` and `block_device_count`.
pub record Blocks (W O : Type 0) : Type 0 where
  pub devs : Table O
  pub block_devices : List (BlockDevice W)
  pub block_device_count : ℕ

-- The requests that `blkdev_ioctl` knows, BLKDEV_SIZE and BLKDEV_COUNT.
abbrev pub blkdev_size : ℕ
blkdev_size = 1

abbrev pub blkdev_cnt : ℕ
blkdev_cnt = 2

abbrev pub named : {W : Type 0} → List ℕ → BlockDevice W → Bool
named name b = str_eq b.info.name name

module _ {W O : Type 0} where
  unfoldable pub blkdev_count : Blocks W O → ℕ
  blkdev_count s = s.block_device_count

  unfoldable pub blkdev_indexof : Blocks W O → BlockDevice W → ℕ
  blkdev_indexof s b = elim (indexof_from (named b.info.name) s.block_devices 0) [
    | none ↦ size_minus_one
    | some i ↦ i
  ]

  unfoldable pub blkdev_get : Blocks W O → ℕ → Option (BlockDevice W)
  blkdev_get s i = get_from s.block_devices 0 i

  unfoldable pub blkdev_fromname : Blocks W O → List ℕ → Option (BlockDevice W)
  blkdev_fromname s name = find (named name) s.block_devices

  -- A device of block size 0 faults at the division.
  unfoldable pub blkdev_read : Blocks W O → W → ℕ → ℕ → ℕ → Option (ℕ × List ℕ × W)
  blkdev_read s w rdev offset size = elim (blkdev_get s (dev_minor rdev)) [
    | none ↦ some (as_size (failed enodev), [], w)
    | some b ↦ elim b.opts.read_block [
      | none ↦ some (as_size (failed enosys), [], w)
      | some read ↦
          if b.info.size == 0
          then none
          else some (read w b.info (offset / b.info.size % 2 ^ 16) size)
    ]
  ]

  unfoldable pub blkdev_write : Blocks W O → W → ℕ → ℕ → List ℕ → Option (ℕ × W)
  blkdev_write s w rdev offset buff = elim (blkdev_get s (dev_minor rdev)) [
    | none ↦ some (as_size (failed enodev), w)
    | some b ↦ elim b.opts.write_block [
      | none ↦ some (as_size (failed enosys), w)
      | some write ↦
          if b.info.size == 0
          then none
          else some (write w b.info (offset / b.info.size % 2 ^ 16) buff)
    ]
  ]

  -- The option is what goes through the pointer argument.
  unfoldable pub blkdev_ioctl : Blocks W O → ℕ → ℕ → Ret × Option ℕ
  blkdev_ioctl s rdev req = elim (blkdev_get s (dev_minor rdev)) [
    | none ↦ (failed enodev, none)
    | some b ↦
        if req == blkdev_size
        then (value 0, some b.info.size)
        else if req == blkdev_cnt
        then (value 0, some b.info.count)
        else (failed einval, none)
  ]

  -- `fsopts` is `blkdev_fsopts`; `alloc` and `alloc_dev` are the two calls of `kmalloc`.
  unfoldable pub register_blkdev :
      O → Blocks W O → Bool → Bool → List ℕ → ℕ → ℕ → BlockOpts W → Option (Ret × Blocks W O)
  register_blkdev fsopts s alloc alloc_dev name blksize blkcnt opts =
      if is_some (blkdev_fromname s name) || is_some (device_fromname s.devs name)
      then some (failed eexist, s)
      else if alloc
      then (do
        name' ← strcpy_into name_max name
        (r, devs') ←
            register_device s.devs alloc_dev (mkdev devmaj_block s.block_device_count) name fsopts
              (blksize * blkcnt % 2 ^ 32)
        let b : BlockDevice W = record {
          info = record { size = blksize; count = blkcnt; name = name' };
          opts = opts;
        }
        elim r [
          | failed e ↦ some (failed e, record s { devs = devs' })
          | value _ ↦ some (
            value 0,
            record {
              devs = devs';
              block_devices = b ∷ s.block_devices;
              block_device_count = s.block_device_count + 1;
            },
          )
        ])
      else some (failed enomem, s)

  unfoldable pub unregister_blkdev : Blocks W O → List ℕ → Ret × Blocks W O
  unregister_blkdev s name = elim (blkdev_fromname s name) [
    | none ↦ (failed enodev, s)
    | some b ↦
        if is_some (device_fromname s.devs name)
        then (let (r, devs') = unregister_device s.devs (mkdev devmaj_block (blkdev_indexof s b)) in
            elim r [
              | failed e ↦ (failed e, record s { devs = devs' })
              | value _ ↦ (
                value 0,
                record {
                  devs = devs';
                  block_devices = remove (named name) s.block_devices;
                  block_device_count = s.block_device_count - 1;
                },
              )
            ])
        else (failed enodev, s)
  ]
