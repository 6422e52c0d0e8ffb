-- ===== src/Block/Files.antt =====
-- The file handlers of newland/src/dev/block.c.
use stardustos.Dev.{dev_minor}
use native.Mathlib.Nat.{add-mul-div_left, mul_comm}
use stardustos.Prelude.{
  Bool-cases, arith, inl, inr, some, ℕ, ◌%◌, ◌*◌, ◌+◌, ◌/◌, ◌<◌, ◌==◌, ◌^◌, ◌≡◌,
}
use stardustos.Block.{BlockDevice, Blocks, blkdev_get, blkdev_read}

wrapped_block :
    (offset size : ℕ) → 0 < size → (offset + 2 ^ 16 * size) / size % 2 ^ 16 ≡ offset / size % 2 ^ 16
wrapped_block offset size h =
    rw (mul_comm (2 ^ 16) size, add-mul-div_left offset (2 ^ 16) h) (omega arith)

module _ {W O : Type 0} where
  -- The block number is cut to 16 bits: a read 65536 blocks further on is the same read.
  pub blkdev_read_wraps :
      (s : Blocks W O) (w : W) (rdev offset size : ℕ) (b : BlockDevice W)
      → blkdev_get s (dev_minor rdev) ≡ some b
      → blkdev_read s w rdev (offset + 2 ^ 16 * b.info.size) size ≡ blkdev_read s w rdev offset size
  unfolding blkdev_read
  blkdev_read_wraps s w rdev offset size b e = elim (Bool-cases (b.info.size == 0)) [
    | inl zero_size ↦ ground arith
    | inr some_size ↦ ground (arith, wrapped_block offset b.info.size)
  ]
