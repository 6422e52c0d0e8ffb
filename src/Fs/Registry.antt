-- ===== src/Fs/Registry.antt =====
-- The file systems that newland/src/fs.c knows by name.
use stardustos.Prelude.{
  Bool, Bool-cases, List, Option, Ret, arith, eexist, enametoolong, enoent, enomem, failed,
  if◌then◌else◌, inl, inr, is_failed, is_some, length, ltb, name_max, none, not, refl, some, str_eq,
  str_eq_iff, str_eq_swap, str_eq→eq, strcpy_into, subst, value, ℕ, ◌&&◌, ◌+◌, ◌-◌, ◌>>=◌, ◌∷◌, ◌≡◌,
}
use stardustos.Slist.{find, get_from, remove}
use stardustos.Slist.Laws.{Unique, Unique-remove, find-remove_ne, find-remove_self, length-remove}
use stardustos.Fs.{Filesystem, FsOpts, Tables}

module _ {W : Type 0} where
  abbrev pub fs_named : List ℕ → Filesystem W → Bool
  fs_named name fs = str_eq fs.name name

  unfoldable pub fs_count : Tables W → ℕ
  fs_count t = t.filesystem_count

  unfoldable pub fs_get : Tables W → ℕ → Option (Filesystem W)
  fs_get t i = get_from t.filesystems 0 i

  unfoldable pub fs_fromname : Tables W → List ℕ → Option (Filesystem W)
  fs_fromname t name = find (fs_named name) t.filesystems

  -- `alloc` says whether `kmalloc` finds memory.
  unfoldable pub register_fs : Tables W → Bool → List ℕ → ℕ → FsOpts W → Option (Ret × Tables W)
  register_fs t alloc name type opts =
      if is_some (fs_fromname t name)
      then some (failed eexist, t)
      else if ltb name_max (length name)
      then some (failed enametoolong, t)
      else if alloc
      then (do
        name' ← strcpy_into name_max name
        let fs : Filesystem W = record { name = name'; type = type; opts = opts }
        some (
          value 0,
          record t { filesystems = fs ∷ t.filesystems; filesystem_count = t.filesystem_count + 1 },
        ))
      else some (failed enomem, t)

  unfoldable pub unregister_fs : Tables W → List ℕ → Ret × Tables W
  unregister_fs t name =
      if is_some (fs_fromname t name)
      then (
        value 0,
        record t {
          filesystems = remove (fs_named name) t.filesystems;
          filesystem_count = t.filesystem_count - 1;
        },
      )
      else (failed enoent, t)

  pub record IsRegistry (t : Tables W) : Type 0 where
    pub distinct : Unique (λ (fs : Filesystem W). fs.name) str_eq t.filesystems
    pub counted : t.filesystem_count ≡ length t.filesystems

  -- A call on a valid registry that meets no fault keeps the names distinct and the count right,
  -- and after a success the name, and only that name, has a new answer.
  pub register_fs-fromname :
      (t : Tables W) (alloc : Bool) (name : List ℕ) (type : ℕ) (opts : FsOpts W) {r : Ret}
      {t' : Tables W}
      → IsRegistry t
      → register_fs t alloc name type opts ≡ some (r, t')
      → IsRegistry t'
        × ((k : List ℕ)
            → fs_fromname t' k ≡ (
                if not (is_failed r) && str_eq name k
                then some (record { name = name; type = type; opts = opts })
                else fs_fromname t k))
  unfolding register_fs fs_fromname find strcpy_into
  register_fs-fromname t alloc name type opts v h = (ground arith, λ k. ground arith)

  -- In a valid registry a file system that is unregistered is gone, every other one answers as
  -- before, and the registry stays valid.
  pub unregister_fs-fromname :
      (t : Tables W) (name : List ℕ)
      → IsRegistry t
      → IsRegistry (unregister_fs t name).1
        × ((k : List ℕ)
            → fs_fromname (unregister_fs t name).1 k
              ≡ (if str_eq name k then none else fs_fromname t k))
  unfolding unregister_fs fs_fromname
  unregister_fs-fromname t name v =
      elim (Bool-cases (is_some (find (fs_named name) t.filesystems))) [
        | inl known ↦ rw known (
          record {
            distinct =
                Unique-remove (λ (fs : Filesystem W). fs.name) str_eq (fs_named name) t.filesystems
                  v.distinct;
            counted = omega (arith, v.counted, length-remove (fs_named name) t.filesystems known);
          },
          λ k. elim (Bool-cases (str_eq name k)) [
            | inl same ↦ rw same (
                subst (λ j. find (fs_named j) (remove (fs_named name) t.filesystems) ≡ none)
                  (str_eq→eq name k same)
                  (find-remove_self (λ (fs : Filesystem W). fs.name) str_eq str_eq_iff name
                    t.filesystems v.distinct))
            | inr other ↦ rw other (
                find-remove_ne (λ (fs : Filesystem W). fs.name) str_eq str_eq_iff k name
                  t.filesystems (str_eq_swap name k other))
          ],
        )
        | inr unknown ↦ rw unknown (
          v,
          λ k. elim (Bool-cases (str_eq name k)) [
            | inl same ↦ rw same (
                subst (λ j. find (fs_named j) t.filesystems ≡ none) (str_eq→eq name k same)
                  (ground arith))
            | inr other ↦ rw other refl
          ],
        )
      ]
