-- ===== src/Fs/Mounts/Targets.antt =====
-- The target names of the mount points in newland/src/fs.c.
use stardustos.Libc.Libgen.{slash}
use stardustos.Prelude.{
  Bool-cases, List, Option, Ret, Ret-cases, [], ap, arith, einval, failed, false, inl, inr,
  is_failed, is_some, length, none, refl, some, str_eq, str_eq_iff, strcpy_into, subst, sym, true,
  value, ℕ, ◌+◌, ◌==◌, ◌∙◌, ◌∷◌, ◌≡◌, ◌⊎◌,
}
use stardustos.Slist.{find, remove}
use stardustos.Fs.{Filesystem, MountPoint, Tables, skip_slash}
use stardustos.Fs.Mounts.{
  at_target, is_bind, mountpoint_create_fromnode, mountpoint_destroy, mountpoint_fromtarget,
}

-- No target begins with a slash.
abbrev pub AreStripped : List MountPoint → Type 0
AreStripped [] = Unit
AreStripped (mp ∷ mps) = (skip_slash mp.target ≡ mp.target) × AreStripped mps

skip_slash-slash : (path : List ℕ) → skip_slash (slash ∷ path) ≡ path
unfolding skip_slash
skip_slash-slash path = refl

slash-ne :
    (path target : List ℕ) → skip_slash target ≡ target → str_eq target (slash ∷ path) ≡ false
unfolding skip_slash str_eq
slash-ne path [] h = refl
slash-ne path (c ∷ cs) h = elim (Bool-cases (c == slash)) [
  | inl is ↦ absurd (longer cs c (sym (rw is at h)))
  | inr isnt ↦ rw isnt
]
  where
    longer : (cs : List ℕ) (c : ℕ) → c ∷ cs ≡ cs → ⊥
    longer cs c e = omega (arith, ap length e)

find-slash :
    (path : List ℕ) (mps : List MountPoint)
    → AreStripped mps
    → find (at_target (slash ∷ path)) mps ≡ none
unfolding find
find-slash path [] h = refl
find-slash path (mp ∷ mps) h = rw (slash-ne path mp.target h.0) (find-slash path mps h.1)

module _ {W : Type 0} where
  -- The mount point that a call adds.
  abbrev pub added : Tables W → MountPoint → Tables W
  added t mp = record t { mountpoints = mp ∷ t.mountpoints; mp_count = t.mp_count + 1 }

  fromtarget-added :
      (t : Tables W) (mp : MountPoint) (path : List ℕ)
      → str_eq mp.target path ≡ true
      → is_some (mountpoint_fromtarget (added t mp) path) ≡ true
  unfolding mountpoint_fromtarget find
  fromtarget-added t mp path hit = rw hit

  destroy-added :
      (t : Tables W) (mp : MountPoint) (path : List ℕ)
      → str_eq mp.target path ≡ true
      → mountpoint_destroy (added t mp) path ≡ (value 0, t)
  unfolding mountpoint_destroy mountpoint_fromtarget find remove
  destroy-added t mp path hit = ground arith

  -- A mount that succeeds adds one mount point in front, at the target without its leading slash;
  -- one that fails changes no table.
  pub mountpoint_create_fromnode-cases :
      (w : W) (t : Tables W) (fresh : Option MountPoint) (fs : Option (Filesystem W))
      (source : Option ℕ) (target : List ℕ) (flags : ℕ) (bytes : List ℕ) {r : Ret} {w' : W}
      {t' : Tables W}
      → mountpoint_create_fromnode w t fresh fs source target flags bytes ≡ some (r, w', t')
      → ((is_failed r ≡ true) × (t' ≡ t))
        ⊎ ((r ≡ value 0)
            × ((mp : MountPoint) × (mp.target ≡ skip_slash target) × (t' ≡ added t mp)))
  unfolding mountpoint_create_fromnode strcpy_into
  mountpoint_create_fromnode-cases w t none fs source target flags bytes {r} {w'} {t'} h =
      inl (ground arith, ground arith)
  mountpoint_create_fromnode-cases w t (some junk) none source target flags bytes {r} {w'} {t'} h =
      elim (Bool-cases (is_bind flags)) [
        | inr other ↦ inl (ground arith, ground arith)
        | inl bind ↦ inr (
          ground arith,
          (
            record junk { target = skip_slash target; flags = flags; rootnode = source },
            refl,
            ground arith,
          ),
        )
      ]
  mountpoint_create_fromnode-cases w t (some junk) (some f) source target flags bytes {r} {w'} {t'}
        h =
      elim (Bool-cases (is_bind flags)) [
        | inl bind ↦ inr (
          ground arith,
          (
            record junk { target = skip_slash target; flags = flags; rootnode = source },
            refl,
            ground arith,
          ),
        )
        | inr other ↦ elim (Ret-cases (f.opts.mount w source flags bytes).0) [
          | inr (e, bad) ↦ inl (ground arith, ground arith)
          | inl (n, good) ↦ inr (
            ground arith,
            (
              record junk {
                target = skip_slash target;
                flags = flags;
                fsname = f.name;
                rootnode = (f.opts.mount w source flags bytes).1;
              },
              refl,
              ground arith,
            ),
          )
        ]
      ]

  -- Where no target in use begins with a slash, a mount at a path with one slash in front that
  -- succeeds is unknown under that path, so that `mountpoint_destroy` of it fails; it is found, and
  -- destroyed, under the path without the slash. Afterwards no target begins with a slash either.
  pub mountpoint_create_fromnode_loses_slash :
      (w : W) (t : Tables W) (fresh : Option MountPoint) (fs : Option (Filesystem W))
      (source : Option ℕ) (path : List ℕ) (flags : ℕ) (bytes : List ℕ) {w' : W} {t' : Tables W}
      → AreStripped t.mountpoints
      → skip_slash path ≡ path
      → mountpoint_create_fromnode w t fresh fs source (slash ∷ path) flags bytes
        ≡ some (value 0, w', t')
      → (mountpoint_fromtarget t' (slash ∷ path) ≡ none)
        × (mountpoint_destroy t' (slash ∷ path) ≡ (failed einval, t'))
        × (is_some (mountpoint_fromtarget t' path) ≡ true)
        × (mountpoint_destroy t' path ≡ (value 0, t))
        × AreStripped t'.mountpoints
  unfolding mountpoint_fromtarget mountpoint_destroy
  mountpoint_create_fromnode_loses_slash w t fresh fs source path flags bytes {w'} {t'} clean plain
        h =
      elim (mountpoint_create_fromnode-cases w t fresh fs source (slash ∷ path) flags bytes
        {r = value 0} {w' = w'} {t' = t'} h) [
          | inl (bad, _) ↦ absurd (cc)
          | inr (_, (mp, at, e)) ↦
              let name : mp.target ≡ path = at ∙ skip_slash-slash path in
              let clean' : AreStripped t'.mountpoints =
                subst (λ (u : Tables W). AreStripped u.mountpoints) (sym e)
                  (rw name plain, clean) in
              let hit : str_eq mp.target path ≡ true = (str_eq_iff mp.target path).1 name in
              let lost : find (at_target (slash ∷ path)) t'.mountpoints ≡ none =
                find-slash path t'.mountpoints clean' in
              (
                lost,
                ground (arith, lost),
                subst (λ u. is_some (mountpoint_fromtarget u path) ≡ true) (sym e)
                    (fromtarget-added t mp path hit),
                subst (λ u. mountpoint_destroy u path ≡ (value 0, t)) (sym e)
                    (destroy-added t mp path hit),
                clean',
              )
        ]
