-- ===== src/Fs.antt =====
-- newland/src/fs.c: nodes, file systems and mount points. A node is the address of its `fs_node_t`,
-- and `W` is the machine that the handlers of a node act on, the store of the nodes included.
use stardustos.Prelude.{
  Bool, List, Option, Ret, [], drop, enoent, failed, false, if◌then◌else◌, length, ltb, none, some,
  str_eq, suc, true, value, zero, ℕ, ◌&&◌, ◌*◌, ◌+◌, ◌/◌, ◌==◌, ◌^◌, ◌∷◌,
}
use stardustos.Libc.Libgen.{dirname, slash}
pub mod Files
pub mod Registry
pub mod Mounts
pub mod Resolve
pub mod Examples

-- The node types of newland/include/newland/fs.h.
abbrev pub fs_node_file : ℕ
fs_node_file = 1

abbrev pub fs_node_dir : ℕ
fs_node_dir = 2

abbrev pub fs_node_link : ℕ
fs_node_link = 4

abbrev pub fs_node_chr : ℕ
fs_node_chr = 6

-- The mode that the kernel gives a node, `6 << type`, and FS_NODE_TYPE_GET.
unfoldable pub mode_of : ℕ → ℕ
mode_of type = 6 * 2 ^ type

unfoldable pub fs_node_type_get : ℕ → ℕ
fs_node_type_get mode = mode / 2 ^ 6

-- `fd_t`
pub record Fd (N : Type 0) : Type 0 where
  pub node : Option N
  pub gid : ℕ
  pub uid : ℕ
  pub pid : ℕ
  pub offset : ℕ
  pub mode : ℕ

-- `fs_node_opts_t`; `none` is a NULL handler. `read` and `write` return a `size_t`.
pub record NodeOpts (W : Type 0) : Type 0 where
  pub open_node : Option (W → ℕ → Fd ℕ → Ret × Fd ℕ × W)
  pub close_node : Option (W → ℕ → Fd ℕ → Ret × Fd ℕ × W)
  pub get_child : Option (W → ℕ → ℕ → Ret × Option ℕ × W)
  pub read : Option (W → ℕ → ℕ → ℕ → ℕ × List ℕ × W)
  pub write : Option (W → ℕ → ℕ → List ℕ → ℕ × W)
  pub ioctl : Option (W → ℕ → ℕ → Ret × W)

-- The fields of `fs_node_t` that this file reads.
pub record Node (W : Type 0) : Type 0 where
  pub name : List ℕ
  pub mode : ℕ
  pub size : ℕ
  pub opts : NodeOpts W

-- `fs_opts_t`: `mount` takes the source node, the flags and the data, and gives the root node.
pub record FsOpts (W : Type 0) : Type 0 where
  pub mount : W → Option ℕ → ℕ → List ℕ → Ret × Option ℕ × W

-- `fs_t`
pub record Filesystem (W : Type 0) : Type 0 where
  pub name : List ℕ
  pub type : ℕ
  pub opts : FsOpts W

-- `mountpoint_t`
pub record MountPoint : Type 0 where
  pub rootnode : Option ℕ
  pub fsname : List ℕ
  pub source : List ℕ
  pub target : List ℕ
  pub flags : ℕ

-- `filesystems`, `mountpoints` and their counts.
pub record Tables (W : Type 0) : Type 0 where
  pub filesystems : List (Filesystem W)
  pub filesystem_count : ℕ
  pub mountpoints : List MountPoint
  pub mp_count : ℕ

-- `if (path[0] == '/') path++;`
unfoldable pub skip_slash : List ℕ → List ℕ
skip_slash [] = []
skip_slash (c ∷ cs) = if c == slash then cs else c ∷ cs

-- `!strncmp(s, prefix, strlen(prefix))`
unfoldable pub has_prefix : List ℕ → List ℕ → Bool
has_prefix s [] = true
has_prefix [] (p ∷ ps) = false
has_prefix (c ∷ cs) (p ∷ ps) = c == p && has_prefix cs ps

-- `!strncmp(a, b, n)`
unfoldable pub same_start : List ℕ → List ℕ → ℕ → Bool
same_start a b zero = true
same_start [] [] (suc n) = true
same_start [] (_ ∷ _) (suc n) = false
same_start (_ ∷ _) [] (suc n) = false
same_start (x ∷ xs) (y ∷ ys) (suc n) = x == y && same_start xs ys n

-- What an out parameter holds after a call that may have set it.
abbrev pub or_else : Option ℕ → Option ℕ → Option ℕ
or_else none old = old
or_else (some n) old = some n

module _ {W : Type 0} (node_at : W → ℕ → Node W) where
  -- `fs_node_resolve`. The result has the node found, and the world after the calls of `get_child`.
  -- Each round of the loop and each descent takes fuel; `none` is a fault or the end of the fuel.
  unfoldable mutual
    pub fs_node_resolve : ℕ → W → ℕ → List ℕ → Option (Ret × Option ℕ × W)
    fs_node_resolve zero w node path = none
    fs_node_resolve (suc fuel) w node path =
        let (dir, cut) = dirname (skip_slash path) in
        resolve_children fuel w node cut (length dir) 0 none

    -- `path` is the string that `dirname` has cut, `plen` is the length of its result, and `tmpnode`
    -- is what the calls of `get_child` so far have left there: NULL at first.
    pub resolve_children : ℕ → W → ℕ → List ℕ → ℕ → ℕ → Option ℕ → Option (Ret × Option ℕ × W)
    resolve_children zero w node path plen i tmpnode = none
    resolve_children (suc fuel) w node path plen i tmpnode = elim (node_at w node).opts.get_child [
      | none ↦ none
      | some get_child ↦
          let (r, found, w') = get_child w node i in
          elim r [
            | failed _ ↦ some (failed enoent, none, w')
            | value (suc _) ↦ some (failed enoent, none, w')
            | value zero ↦ elim (or_else found tmpnode) [
              | none ↦ none
              | some child ↦ elim (ltb 1 plen) [
                | true ↦ elim (same_start (node_at w' child).name path plen) [
                  | true ↦ fs_node_resolve fuel w' child (drop plen path)
                  | false ↦ resolve_children fuel w' node path plen (i + 1) (some child)
                ]
                | false ↦ elim (str_eq (node_at w' child).name path) [
                  | true ↦ some (value 0, some child, w')
                  | false ↦ resolve_children fuel w' node path plen (i + 1) (some child)
                ]
              ]
            ]
          ]
    ]
