-- ===== src/Devfs.antt =====
-- newland/src/fs/devfs.c: the nodes of the kernel's devices, made when they are first asked for.
use stardustos.Prelude.{
  Bool, List, Option, if◌then◌else◌, length, ltb, name_max, none, some, strcpy_into, ℕ, ◌>>=◌, ◌∷◌,
}
use stardustos.Fs.{fs_node_chr, mode_of}
use stardustos.Fs.Files.{is_negative}
use stardustos.Slist.{get_from}
use stardustos.Dev.{Device, device_get}
use stardustos.Block.{Blocks, blkdev_fromname}
pub mod Order
pub mod Examples

-- The fields of `fs_node_t` that `devfs_get` sets.
pub record DevNode (O : Type 0) : Type 0 where
  pub name : List ℕ
  pub mode : ℕ
  pub rdev : ℕ
  pub size : ℕ
  pub blksize : ℕ
  pub blkcnt : ℕ
  pub opts : O

module _ {W O : Type 0} (s : Blocks W O) where
  -- The node of a device over what `kmalloc` gave; only a block device sets the block fields.
  unfoldable pub node_of : DevNode O → List ℕ → Device O → DevNode O
  node_of junk name device = elim (blkdev_fromname s device.name) [
    | none ↦ record junk {
      name = name;
      mode = mode_of fs_node_chr;
      rdev = device.dev;
      size = device.size;
      opts = device.opts;
    }
    | some b ↦ record {
      name = name;
      mode = mode_of 5;
      rdev = device.dev;
      size = device.size;
      blksize = b.info.size;
      blkcnt = b.info.count;
      opts = device.opts;
    }
  ]

  -- `nodes` is `devfs_nodes`. `fresh` is what `kmalloc` gives for the node, and `alloc` says whether
  -- `liblist_add` finds memory; its result is not looked at. `ino` is the inode number that
  -- `fs_node_create` gives the node and returns.
  unfoldable pub devfs_get :
      List (DevNode O)
      → Option (DevNode O)
      → Bool
      → ℕ
      → ℕ
      → Option (Option (DevNode O) × List (DevNode O))
  unfolding node_of
  devfs_get nodes fresh alloc ino i = elim (get_from nodes 0 i) [
    | some node ↦ some (some node, nodes)
    | none ↦ elim (device_get s.devs i) [
      | none ↦ some (none, nodes)
      | some device ↦ if ltb name_max (length device.name) then some (none, nodes) else elim fresh [
        | none ↦ some (none, nodes)
        | some junk ↦ strcpy_into name_max device.name >>= λ name.
            let node = node_of junk name device in
            if is_negative ino
            then some (none, nodes)
            else some (some node, if alloc then node ∷ nodes else nodes)
      ]
    ]
  ]
