-- ===== src/Fs/Examples.antt =====
-- newland/src/fs.c on a small tree: a root with the children "bin" and "dev".
use stardustos.Prelude.{
  Bool-cases, List, Option, Ret, [], arith, codes, enoent, failed, false, get_elem?, if◌then◌else◌,
  inl, inr, length, none, refl, some, str_eq, strcpy_into, suc, true, value, zero, ℕ, ◌<◌, ◌==◌,
  ◌∷◌, ◌≡◌,
}
use stardustos.Slist.{find}
use stardustos.Libc.Libgen.{dirname, slash}
use stardustos.Fs.{
  Filesystem, FsOpts, MountPoint, Node, Tables, fs_node_dir, fs_node_resolve, mode_of, skip_slash,
}
use stardustos.Fs.Registry.{IsRegistry, fs_fromname, register_fs}
use stardustos.Fs.Resolve.{answer, fs_node_resolve_name, fs_node_resolve_nested, listed}
use stardustos.Fs.Mounts.{mountpoint_create_fromnode}

abbrev kids : ℕ → List ℕ
kids zero = 1 ∷ 2 ∷ []
kids (suc n) = []

abbrev bin : List ℕ
bin = codes "bin"

abbrev name_of : ℕ → List ℕ
name_of n = if n == 1 then bin else codes "dev"

abbrev get_kid : ℕ → ℕ → ℕ → Ret × Option ℕ × ℕ
get_kid w n i = listed w (get_elem? (kids n) i)

abbrev tree : ℕ → ℕ → Node ℕ
tree w n = record {
  name = name_of n;
  mode = mode_of fs_node_dir;
  size = 0;
  opts = record {
    open_node = none;
    close_node = none;
    get_child = some get_kid;
    read = none;
    write = none;
    ioctl = none;
  };
}

few_kids : (n : ℕ) → length (kids n) < 3
few_kids zero = omega arith
few_kids (suc n) = omega arith

tree_names : (c : ℕ) → str_eq (tree 9 c).name [] ≡ false
unfolding str_eq
tree_names c = elim (Bool-cases (c == 1)) [ inl e ↦ rw e refl | inr e ↦ rw e refl ]

fs_node_resolve_name_example :
    fs_node_resolve tree 4 9 0 (slash ∷ bin)
    ≡ answer 9 (find (λ c. str_eq (tree 9 c).name bin) (kids 0))
fs_node_resolve_name_example =
    fs_node_resolve_name tree 9 kids get_kid (λ n. refl) (λ n i. refl) 4 0 98 (codes "in") true refl
      (omega arith)

fs_node_resolve_nested_example :
    fs_node_resolve tree 9 9 0 (codes "/bin/sh") ≡ some (failed enoent, none, 9)
unfolding skip_slash dirname
fs_node_resolve_nested_example =
    fs_node_resolve_nested tree 9 kids get_kid (λ n. refl) (λ n i. refl) 3 few_kids tree_names 9 0
      (codes "/bin/sh") (omega arith) (omega arith)

abbrev ramfs : List ℕ
ramfs = codes "ramfs"

-- A file system whose mount gives node 0.
abbrev mount_zero : FsOpts ℕ
mount_zero = record { mount = λ w source flags bytes. (value 0, some 0, w) }

abbrev blank : Tables ℕ
blank = record { filesystems = []; filesystem_count = 0; mountpoints = []; mp_count = 0 }

abbrev with_ramfs : Tables ℕ
with_ramfs = record blank {
  filesystems = record { name = ramfs; type = 1; opts = mount_zero } ∷ [];
  filesystem_count = 1;
}

blank-IsRegistry : IsRegistry blank
blank-IsRegistry = record { distinct = _; counted = refl }

ramfs_registered : register_fs blank true ramfs 1 mount_zero ≡ some (value 0, with_ramfs)
unfolding register_fs fs_fromname find strcpy_into
ramfs_registered = refl

abbrev mnt : List ℕ
mnt = codes "mnt"

-- What `kmalloc` may hand out.
abbrev junk : MountPoint
junk = record { rootnode = none; fsname = []; source = 1 ∷ []; target = []; flags = 0 }

abbrev mounted : MountPoint
mounted = record junk { target = mnt; fsname = ramfs; rootnode = some 0 }

abbrev with_mount : Tables ℕ
with_mount = record with_ramfs { mountpoints = mounted ∷ []; mp_count = 1 }

abbrev ramfs_entry : Filesystem ℕ
ramfs_entry = record { name = ramfs; type = 1; opts = mount_zero }

made_mount :
    mountpoint_create_fromnode 9 with_ramfs (some junk) (some ramfs_entry) none (slash ∷ mnt) 0 []
    ≡ some (value 0, 9, with_mount)
unfolding mountpoint_create_fromnode skip_slash strcpy_into
made_mount = refl
