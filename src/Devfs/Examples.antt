-- ===== src/Devfs/Examples.antt =====
-- newland/src/fs/devfs.c with two devices.
use stardustos.Prelude.{[], arith, codes, refl, some, true, ℕ, ◌∷◌, ◌≡◌}
use stardustos.Slist.{get_from}
use stardustos.Devfs.{DevNode, devfs_get}
use stardustos.Dev.{Device, device_get}
use stardustos.Block.{Blocks}
use stardustos.Devfs.Order.{devfs_get_swaps}

abbrev tty0 : Device ℕ
tty0 = record { dev = 512; size = 0; name = codes "tty0"; opts = 1 }

abbrev tty1 : Device ℕ
tty1 = record { dev = 513; size = 0; name = codes "tty1"; opts = 1 }

abbrev two_devices : Blocks ℕ ℕ
two_devices = record {
  devs = record { devices = tty1 ∷ tty0 ∷ []; dev_count = 2 };
  block_devices = [];
  block_device_count = 0;
}

abbrev blank : DevNode ℕ
blank = record { name = []; mode = 0; rdev = 0; size = 0; blksize = 0; blkcnt = 0; opts = 0 }

devfs_get_swaps_example :
    (n0 n1 : DevNode ℕ) × (devfs_get two_devices [] (some blank) true 7 0 ≡ some (some n0, n0 ∷ []))
    × (n0.rdev ≡ 513)
    × (devfs_get two_devices (n0 ∷ []) (some blank) true 8 1 ≡ some (some n1, n1 ∷ n0 ∷ []))
    × (n1.rdev ≡ 512)
    × (devfs_get two_devices (n1 ∷ n0 ∷ []) (some blank) true 9 0 ≡ some (some n1, n1 ∷ n0 ∷ []))
unfolding device_get get_from
devfs_get_swaps_example =
    devfs_get_swaps two_devices blank 7 8 9 tty1 tty0 (omega arith) (omega arith) refl refl
      (omega arith) (omega arith)
