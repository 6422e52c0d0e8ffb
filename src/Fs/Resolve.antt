-- ===== src/Fs/Resolve.antt =====
-- `fs_node_resolve` of newland/src/fs.c over a tree whose directories list their children in order
-- and say -NEWLAND_ENOENT behind the last one, as the handlers in newland/src/fs do.
use stardustos.Prelude.{
  Bool, List, Option, Ret, [], ap, arith, drop, drop-cons, drop-nil, enoent, failed, false,
  get_elem?, if◌then◌else◌, length, none, refl, some, str_eq, suc, true, value, zero, ℕ, ◌+◌, ◌<◌,
  ◌∙◌, ◌∷◌, ◌≡◌,
}
use stardustos.Libc.Libgen.{dirname, slash}
use stardustos.Libc.Libgen.Laws.{dirname-cut, dirname-plain, no_slash}
use stardustos.Slist.{find}
use stardustos.Fs.{Node, fs_node_resolve, resolve_children, skip_slash}

-- What `get_child` answers for a child, or behind the last one.
abbrev pub listed : {W : Type 0} → W → Option ℕ → Ret × Option ℕ × W
listed w none = (failed enoent, none, w)
listed w (some c) = (value 0, some c, w)

-- What a lookup answers that found a node, or did not.
abbrev pub answer : {W : Type 0} → W → Option ℕ → Option (Ret × Option ℕ × W)
answer w none = some (failed enoent, none, w)
answer w (some c) = some (value 0, some c, w)

stripped :
    (c : ℕ) (cs : List ℕ) (lead : Bool)
    → no_slash (c ∷ cs) ≡ true
    → skip_slash (if lead then slash ∷ c ∷ cs else c ∷ cs) ≡ c ∷ cs
unfolding skip_slash
stripped c cs true plain = refl
stripped c cs false plain = ground arith

find-never : (test : ℕ → Bool) (xs : List ℕ) → ((x : ℕ) → test x ≡ false) → find test xs ≡ none
unfolding find
find-never test [] h = refl
find-never test (x ∷ xs) h = ground (arith, h x, find-never test xs h)

drop-all : (xs : List ℕ) → drop (length xs) xs ≡ []
drop-all [] = refl
drop-all (x ∷ xs) = drop-all xs

module _ {W : Type 0} (node_at : W → ℕ → Node W) (w : W) (kids : ℕ → List ℕ)
    (get_child : W → ℕ → ℕ → Ret × Option ℕ × W)
    (handled : (n : ℕ) → (node_at w n).opts.get_child ≡ some get_child)
    (lists : (n i : ℕ) → get_child w n i ≡ listed w (get_elem? (kids n) i)) where
  abbrev called : List ℕ → ℕ → Bool
  called name c = str_eq (node_at w c).name name

  -- The loop for the last component, from child `i` on.
  resolve_last :
      (fuel n : ℕ) (name : List ℕ) (plen i : ℕ) (tmp : Option ℕ) (rest : List ℕ)
      → plen < 2
      → drop i (kids n) ≡ rest
      → length rest < fuel
      → resolve_children node_at fuel w n name plen i tmp ≡ answer w (find (called name) rest)
  unfolding fs_node_resolve find
  resolve_last zero n name plen i tmp rest short at enough = elim enough [ ]
  resolve_last (suc fuel) n name plen i tmp [] short at enough =
      let end = drop-nil (kids n) i at in ground (arith, handled n, lists n i, end)
  resolve_last (suc fuel) n name plen i tmp (c ∷ rest) short at enough =
      let (here, more) = drop-cons (kids n) i {x = c} {rest = rest} at in
      ground (
        arith,
        handled n,
        lists n i,
        here,
        resolve_last fuel n name plen (i + 1) (some c) rest short more (omega arith),
      )

  -- A name without a slash, with or without one in front, is looked up among the children: the
  -- first child of that name is found, and -NEWLAND_ENOENT says that there is none. Fuel for one
  -- round a child and two more is enough.
  pub fs_node_resolve_name :
      (fuel n c : ℕ) (cs : List ℕ) (lead : Bool)
      → no_slash (c ∷ cs) ≡ true
      → length (kids n) + 1 < fuel
      → fs_node_resolve node_at fuel w n (if lead then slash ∷ c ∷ cs else c ∷ cs)
        ≡ answer w (find (called (c ∷ cs)) (kids n))
  unfolding fs_node_resolve
  fs_node_resolve_name zero n c cs lead plain enough = elim enough [ ]
  fs_node_resolve_name (suc fuel) n c cs lead plain enough =
      ap (λ (p : List ℕ × List ℕ). resolve_children node_at fuel w n p.1 (length p.0) 0 none)
        (ap dirname (stripped c cs lead plain) ∙ dirname-plain c cs plain)
      ∙ resolve_last fuel n (c ∷ cs) 1 0 none (kids n) (omega arith) refl (omega arith)

  module _ (bound : ℕ) (few : (n : ℕ) → length (kids n) < bound)
      (named : (c : ℕ) → called [] c ≡ false) where
    -- Behind a directory's name nothing is left to look up.
    resolve_empty :
        (fuel n : ℕ) → bound < fuel → fs_node_resolve node_at fuel w n [] ≡ answer w none
    unfolding fs_node_resolve skip_slash dirname
    resolve_empty zero n enough = elim enough [ ]
    resolve_empty (suc fuel) n enough =
        resolve_last fuel n [] 1 0 none (kids n) (omega arith) refl (omega (arith, few n))
        ∙ ap (answer w) (find-never (called []) (kids n) named)

    resolve_dir :
        (fuel n : ℕ) (path : List ℕ) (i : ℕ) (tmp : Option ℕ) (rest : List ℕ)
        → 1 < length path
        → drop i (kids n) ≡ rest
        → length rest + bound + 1 < fuel
        → resolve_children node_at fuel w n path (length path) i tmp ≡ answer w none
    unfolding fs_node_resolve
    resolve_dir zero n path i tmp rest long at enough = elim enough [ ]
    resolve_dir (suc fuel) n path i tmp [] long at enough =
        let end = drop-nil (kids n) i at in ground (arith, handled n, lists n i, end)
    resolve_dir (suc fuel) n path i tmp (c ∷ rest) long at enough =
        let (here, more) = drop-cons (kids n) i {x = c} {rest = rest} at in
        ground (
          arith,
          handled n,
          lists n i,
          here,
          drop-all path,
          resolve_empty fuel c (omega arith),
          resolve_dir fuel n path (i + 1) (some c) rest long more (omega arith),
        )

    -- A path whose directory part has two bytes or more is never resolved, whatever nodes the tree
    -- holds, as long as none has an empty name and the directories are small enough for the fuel:
    -- the rest of the path is cut off before the lookup goes down.
    pub fs_node_resolve_nested :
        (fuel n : ℕ) (path : List ℕ)
        → 1 < length (dirname (skip_slash path)).0
        → bound + bound + 2 < fuel
        → fs_node_resolve node_at fuel w n path ≡ some (failed enoent, none, w)
    unfolding fs_node_resolve
    fs_node_resolve_nested zero n path long enough = elim enough [ ]
    fs_node_resolve_nested (suc fuel) n path long enough =
        let dir = (dirname (skip_slash path)).0 in
        ap (λ cut. resolve_children node_at fuel w n cut (length dir) 0 none)
          (dirname-cut (skip_slash path) long)
        ∙ resolve_dir fuel n dir 0 none (kids n) long refl (omega (arith, few n))
