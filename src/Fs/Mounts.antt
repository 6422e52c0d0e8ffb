-- ===== src/Fs/Mounts.antt =====
-- The mount points of newland/src/fs.c, and the lookup of a path below them.
use stardustos.Libc.Libgen.{dirname}
use stardustos.Prelude.{
  Bool, List, Option, Ret, [], codes, drop, ebusy, einval, enomem, failed, false, if◌then◌else◌,
  is_failed, is_some, length, ltb, none, not, path_max, some, str_eq, strcpy_into, take, value, ℕ,
  ◌%◌, ◌&&◌, ◌++◌, ◌+◌, ◌-◌, ◌==◌, ◌>>=◌, ◌||◌, ◌∷◌,
}
use stardustos.Slist.{find, remove}
use stardustos.Fs.{Filesystem, MountPoint, Node, Tables, fs_node_resolve, has_prefix, skip_slash}
pub mod Targets

abbrev pub at_target : List ℕ → MountPoint → Bool
at_target target mp = str_eq mp.target target

abbrev pub at_source : List ℕ → MountPoint → Bool
at_source src mp = str_eq mp.source src

abbrev pub covers : List ℕ → MountPoint → Bool
covers path mp = has_prefix path mp.target

abbrev pub is_bind : ℕ → Bool
is_bind flags = flags % 2 == 1

-- `strcpy` into the `source` of the first mount point at a target.
unfoldable pub set_source : List ℕ → List ℕ → List MountPoint → List MountPoint
set_source target src [] = []
set_source target src (mp ∷ mps) =
    if str_eq mp.target target
    then record mp { source = src } ∷ mps
    else mp ∷ set_source target src mps

module _ {W : Type 0} where
  unfoldable pub mountpoint_count : Tables W → ℕ
  mountpoint_count t = t.mp_count

  unfoldable pub mountpoint_fromsrc : Tables W → List ℕ → Option MountPoint
  mountpoint_fromsrc t src = find (at_source src) t.mountpoints

  unfoldable pub mountpoint_fromtarget : Tables W → List ℕ → Option MountPoint
  mountpoint_fromtarget t target = find (at_target target) t.mountpoints

  -- The mount point that `fs_resolve` starts from, and its root node. The first one whose target is
  -- a prefix serves, unless its root node is NULL; then it is the one at "/".
  unfoldable pub resolve_mount : Tables W → List ℕ → Option (MountPoint × ℕ)
  resolve_mount t path =
      let at_root : Option (MountPoint × ℕ) = elim (mountpoint_fromtarget t (codes "/")) [
        | none ↦ none
        | some mp ↦ elim mp.rootnode [ none ↦ none | some root ↦ some (mp, root) ]
      ] in
      elim (find (covers path) t.mountpoints) [
        | none ↦ at_root
        | some mp ↦ elim mp.rootnode [ none ↦ at_root | some root ↦ some (mp, root) ]
      ]

  -- `none` for the path is NULL, `none` for the result a fault or the end of the fuel.
  unfoldable pub fs_resolve :
      (W → ℕ → Node W) → ℕ → W → Tables W → Option (List ℕ) → Option (Ret × Option ℕ × W)
  unfolding resolve_mount
  fs_resolve node_at fuel w t none = some (failed einval, none, w)
  fs_resolve node_at fuel w t (some path) = elim (resolve_mount t (skip_slash path)) [
    | none ↦ some (failed einval, none, w)
    | some (mp, root) ↦
        if ltb (length (skip_slash path)) (length mp.target)
        then none
        else fs_node_resolve node_at fuel w root (drop (length mp.target) (skip_slash path))
  ]

  -- What `src` reads after `fs_resolve`, which cuts the string behind the mount point's target.
  unfoldable pub cut_by_resolve : Tables W → List ℕ → List ℕ
  unfolding resolve_mount
  cut_by_resolve t path = elim (resolve_mount t (skip_slash path)) [
    | none ↦ path
    | some (mp, _) ↦
        let rest = drop (length mp.target) (skip_slash path) in
        let kept = length path - length (skip_slash rest) in
        take kept path ++ (dirname (skip_slash rest)).1
  ]

  -- `fresh` is what `kmalloc` gives, with whatever its bytes hold: `source` keeps them.
  unfoldable pub mountpoint_create_fromnode :
      W
      → Tables W
      → Option MountPoint
      → Option (Filesystem W)
      → Option ℕ
      → List ℕ
      → ℕ
      → List ℕ
      → Option (Ret × W × Tables W)
  mountpoint_create_fromnode w t fresh fs source target flags bytes =
      if not (is_bind flags) && not (is_some fs) then some (failed einval, w, t) else elim fresh [
        | none ↦ some (failed enomem, w, t)
        | some junk ↦ do
          target' ← strcpy_into path_max (skip_slash target)
          let add : MountPoint → Tables W =
              λ mp. record t { mountpoints = mp ∷ t.mountpoints; mp_count = t.mp_count + 1 }
          if is_bind flags
              then some (
                value 0,
                w,
                add (record junk { target = target'; flags = flags; rootnode = source }),
              )
              else elim fs [
                | none ↦ none
                | some f ↦
                    let (r, root, w') = f.opts.mount w source flags bytes in
                    elim r [
                      | failed e ↦ some (failed e, w', t)
                      | value _ ↦ some (
                        value 0,
                        w',
                        add (record junk {
                          target = target';
                          flags = flags;
                          fsname = f.name;
                          rootnode = root;
                        }),
                      )
                    ]
              ]
      ]

  unfoldable pub mountpoint_create :
      (W → ℕ → Node W)
      → ℕ
      → W
      → Tables W
      → Option MountPoint
      → Option (Filesystem W)
      → Option (List ℕ)
      → List ℕ
      → ℕ
      → List ℕ
      → Option (Ret × W × Tables W)
  mountpoint_create node_at fuel w t fresh fs src target flags bytes =
      if not (is_bind flags) && not (is_some fs)
      then some (failed einval, w, t)
      else if elim src [ none ↦ false | some s ↦ is_some (mountpoint_fromsrc t s) ]
          || is_some (mountpoint_fromtarget t target)
      then some (failed ebusy, w, t)
      else do
        (r, source, w1) ← fs_resolve node_at fuel w t src
        if is_failed r then some (r, w1, t) else do
          (r2, w2, t2) ←
              mountpoint_create_fromnode w1 t fresh fs source (skip_slash target) flags bytes
          if is_failed r2 then some (r2, w2, t2) else do
            s ← src
            s' ← strcpy_into path_max (cut_by_resolve t s)
            some (
              value 0,
              w2,
              record t2 { mountpoints = set_source (skip_slash target) s' t2.mountpoints },
            )

  unfoldable pub mountpoint_destroy : Tables W → List ℕ → Ret × Tables W
  mountpoint_destroy t target =
      if is_some (mountpoint_fromtarget t target)
      then (
        value 0,
        record t {
          mountpoints = remove (at_target target) t.mountpoints;
          mp_count = t.mp_count - 1;
        },
      )
      else (failed einval, t)
