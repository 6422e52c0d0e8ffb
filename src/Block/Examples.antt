-- ===== src/Block/Examples.antt =====
-- Block devices of newland/src/dev/block.c on small tables.
use stardustos.Prelude.{
  List, [], arith, codes, none, refl, some, str_eq, strcpy_into, true, value, ℕ, ◌∷◌, ◌≡◌,
}
use stardustos.Slist.{find}
use stardustos.Block.{BlockDevice, BlockOpts, Blocks, blkdev_fromname, register_blkdev}
use stardustos.Block.Numbers.{IsConsistent, register_blkdev-IsConsistent}
use stardustos.Dev.{device_fromdev, device_fromname, mkdev, register_device}

-- A driver that gives the block's number for its content.
abbrev driver : BlockOpts ℕ
driver = record { read_block = some (λ w info block size. (1, block ∷ [], w)); write_block = none }

abbrev hda : List ℕ
hda = codes "hda"

abbrev hdb : List ℕ
hdb = codes "hdb"

abbrev first_disk : BlockDevice ℕ
first_disk = record { info = record { size = 512; count = 100; name = hda }; opts = driver }

abbrev second_disk : BlockDevice ℕ
second_disk = record { info = record { size = 512; count = 100; name = hdb }; opts = driver }

abbrev no_disk : Blocks ℕ ℕ
no_disk = record {
  devs = record { devices = []; dev_count = 0 };
  block_devices = [];
  block_device_count = 0;
}

abbrev one_disk : Blocks ℕ ℕ
one_disk = record {
  devs = record {
    devices = record { dev = 256; size = 51200; name = hda; opts = 5 } ∷ [];
    dev_count = 1;
  };
  block_devices = first_disk ∷ [];
  block_device_count = 1;
}

abbrev two_disks : Blocks ℕ ℕ
two_disks = record {
  devs = record {
    devices =
        record { dev = 257; size = 51200; name = hdb; opts = 5 }
        ∷ record { dev = 256; size = 51200; name = hda; opts = 5 }
        ∷ [];
    dev_count = 2;
  };
  block_devices = second_disk ∷ first_disk ∷ [];
  block_device_count = 2;
}

first_registered : register_blkdev 5 no_disk true true hda 512 100 driver ≡ some (value 0, one_disk)
unfolding register_blkdev blkdev_fromname device_fromname device_fromdev register_device strcpy_into
    find str_eq mkdev
first_registered = refl

second_registered :
    register_blkdev 5 one_disk true true hdb 512 100 driver ≡ some (value 0, two_disks)
unfolding register_blkdev blkdev_fromname device_fromname device_fromdev register_device strcpy_into
    find str_eq mkdev
second_registered = refl

no_disk-IsConsistent : IsConsistent no_disk
no_disk-IsConsistent = record {
  table = record { numbers = _; names = _; counted = refl };
  distinct = _;
  counted = refl;
  numbered = _;
}

one_disk-IsConsistent : IsConsistent one_disk
one_disk-IsConsistent =
    register_blkdev-IsConsistent 5 no_disk true true hda 512 100 driver 0 no_disk-IsConsistent
      (omega arith) first_registered

two_disks-IsConsistent : IsConsistent two_disks
two_disks-IsConsistent =
    register_blkdev-IsConsistent 5 one_disk true true hdb 512 100 driver 0 one_disk-IsConsistent
      (omega arith) second_registered

register_blkdev-IsConsistent_example : IsConsistent two_disks
register_blkdev-IsConsistent_example =
    register_blkdev-IsConsistent 5 one_disk true true hdb 512 100 driver 0 one_disk-IsConsistent
      (omega arith) second_registered
