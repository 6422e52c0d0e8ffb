-- ===== src/Devfs/Order.antt =====
-- In which order newland/src/fs/devfs.c lists the devices.
use stardustos.Prelude.{
  List, [], arith, false, length, name_max, none, refl, some, strcpy_into, true, ℕ, ◌<◌, ◌^◌, ◌∷◌,
  ◌≡◌,
}
use stardustos.Dev.{Device, device_get}
use stardustos.Slist.{get_from}
use stardustos.Devfs.{DevNode, devfs_get, node_of}
use stardustos.Block.{Blocks}
use stardustos.Fs.Files.{is_negative}

module _ {W O : Type 0} (s : Blocks W O) where
  devfs_get-fresh :
      (nodes : List (DevNode O)) (junk : DevNode O) (ino i : ℕ) (device : Device O)
      → is_negative ino ≡ false
      → get_from nodes 0 i ≡ none
      → device_get s.devs i ≡ some device
      → length device.name < name_max
      → devfs_get s nodes (some junk) true ino i
        ≡ some (some (node_of s junk device.name device), node_of s junk device.name device ∷ nodes)
  unfolding devfs_get strcpy_into
  devfs_get-fresh nodes junk ino i device made absent there short =
      ground (arith, made, absent, there, short)

  node_of-rdev :
      (junk : DevNode O) (name : List ℕ) (device : Device O)
      → (node_of s junk name device).rdev ≡ device.dev
  unfolding node_of
  node_of-rdev junk name device = ground arith

  devfs_get-cached :
      (n : DevNode O) (ns : List (DevNode O)) (junk : DevNode O) (ino : ℕ)
      → devfs_get s (n ∷ ns) (some junk) true ino 0 ≡ some (some n, n ∷ ns)
  unfolding devfs_get get_from
  devfs_get-cached n ns junk ino = refl

  -- A new node goes to the front, but the list is read by the device's index: after the first two
  -- devices have been listed, with inode numbers that are not negative, the index of the first one
  -- gives the node of the second one.
  pub devfs_get_swaps :
      (junk : DevNode O) (ino0 ino1 ino2 : ℕ) (d0 d1 : Device O)
      → ino0 < 2 ^ 31
      → ino1 < 2 ^ 31
      → device_get s.devs 0 ≡ some d0
      → device_get s.devs 1 ≡ some d1
      → length d0.name < name_max
      → length d1.name < name_max
      → (n0 n1 : DevNode O) × (devfs_get s [] (some junk) true ino0 0 ≡ some (some n0, n0 ∷ []))
        × (n0.rdev ≡ d0.dev)
        × (devfs_get s (n0 ∷ []) (some junk) true ino1 1 ≡ some (some n1, n1 ∷ n0 ∷ []))
        × (n1.rdev ≡ d1.dev)
        × (devfs_get s (n1 ∷ n0 ∷ []) (some junk) true ino2 0 ≡ some (some n1, n1 ∷ n0 ∷ []))
  unfolding get_from
  devfs_get_swaps junk ino0 ino1 ino2 d0 d1 plus0 plus1 first second short0 short1 = (
    node_of s junk d0.name d0,
    node_of s junk d1.name d1,
    devfs_get-fresh [] junk ino0 0 d0 (ground arith) refl first short0,
    node_of-rdev junk d0.name d0,
    devfs_get-fresh (node_of s junk d0.name d0 ∷ []) junk ino1 1 d1 (ground arith) refl second
        short1,
    node_of-rdev junk d1.name d1,
    devfs_get-cached (node_of s junk d1.name d1) (node_of s junk d0.name d0 ∷ []) junk ino2,
  )
