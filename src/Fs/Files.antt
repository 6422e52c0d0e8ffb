-- ===== src/Fs/Files.antt =====
-- The calls on a node of newland/src/fs.c: create, open, close, read, write and ioctl.
use stardustos.Prelude.{
  Bool, List, Option, Ret, [], ap, as_size, eisdir, enametoolong, enomem, enosys, failed, false,
  if◌then◌else◌, leb, length, ltb, name_max, none, path_max, some, strcpy_into, suc, true, value,
  zero, ℕ, ◌%◌, ◌+◌, ◌==◌, ◌>>=◌, ◌^◌, ◌∷◌,
}
use stardustos.Fs.{Fd, Node, Tables, fs_node_dir, fs_node_link, fs_node_type_get}
use stardustos.Fs.Mounts.{fs_resolve}

-- A string in a `char` array: the bytes before the first NUL, and a fault if there is none.
unfoldable pub c_string : List ℕ → Option (List ℕ)
c_string [] = none
c_string (b ∷ bs) = elim (c_string bs) [
  | none ↦ if b == 0 then some [] else none
  | some s ↦ if b == 0 then some [] else some (b ∷ s)
]

-- `r < 0` for a `size_t` that was put into an `int`.
abbrev pub is_negative : ℕ → Bool
is_negative r = leb (2 ^ 31) r

module _ {W : Type 0} where
  -- `fresh` is what `kmalloc` gives: the fields that are not set keep it. The inode number comes
  -- back as an `int`, and the counter is the second result.
  unfoldable pub fs_node_create :
      Option (Node W) → ℕ → List ℕ → ℕ → Option (Ret × ℕ × Option (Node W))
  fs_node_create fresh next_inode name mode =
      if ltb name_max (length name)
      then some (failed enametoolong, next_inode, none)
      else elim fresh [
        | none ↦ some (failed enomem, next_inode, none)
        | some junk ↦ do
          name' ← strcpy_into name_max name
          some (
            value next_inode,
            (next_inode + 1) % 2 ^ 32,
            some (record junk { name = name'; mode = mode }),
          )
      ]

module _ {W : Type 0} (node_at : W → ℕ → Node W) where
  unfoldable pub fs_node_open : W → ℕ → Fd ℕ → Ret × Fd ℕ × W
  fs_node_open w node fd = elim (node_at w node).opts.open_node [
    | none ↦ (value 0, fd, w)
    | some handler ↦ handler w node fd
  ]

  unfoldable pub fs_node_close : W → ℕ → Fd ℕ → Ret × Fd ℕ × W
  fs_node_close w node fd = elim (node_at w node).opts.close_node [
    | none ↦ (value 0, fd, w)
    | some handler ↦ handler w node fd
  ]

  -- The path that a link holds, or the negative result of reading it.
  unfoldable pub read_link :
      (W → ℕ → ℕ → ℕ → ℕ × List ℕ × W) → W → ℕ → Option (ℕ × Option (List ℕ) × W)
  read_link read w node =
      let (r, bytes, w') = read w node 0 (node_at w node).size in
      if ltb path_max (length bytes)
      then none
      else if is_negative r
      then some (r, none, w')
      else (c_string bytes >>= λ path. some (r, some path, w'))

  module _ (t : Tables W) where
    -- A link to a link takes fuel.
    unfoldable pub fs_node_read : ℕ → W → ℕ → ℕ → ℕ → Option (ℕ × List ℕ × W)
    fs_node_read zero w node offset size = none
    fs_node_read (suc fuel) w node offset size =
        let type = fs_node_type_get (node_at w node).mode in
        elim (node_at w node).opts.read [
          | none ↦ some (as_size (failed enosys), [], w)
          | some read ↦ elim (type == fs_node_link) [
            | true ↦ read_link read w node >>= λ link. elim link.1 [
              | none ↦ some (link.0, [], link.2)
              | some path ↦ fs_resolve node_at fuel link.2 t (some path) >>= λ found. elim found.1 [
                | none ↦ some (as_size found.0, [], found.2)
                | some parent ↦ fs_node_read fuel found.2 parent offset size
              ]
            ]
            | false ↦
                if type == fs_node_dir
                then some (as_size (failed eisdir), [], w)
                else some (read w node offset size)
          ]
        ]

    unfoldable pub fs_node_write : ℕ → W → ℕ → ℕ → List ℕ → Option (ℕ × W)
    fs_node_write zero w node offset buff = none
    fs_node_write (suc fuel) w node offset buff =
        let type = fs_node_type_get (node_at w node).mode in
        elim (node_at w node).opts.read [
          | none ↦ some (as_size (failed enosys), w)
          | some read ↦ elim (node_at w node).opts.write [
            | none ↦ some (as_size (failed enosys), w)
            | some write ↦ elim (type == fs_node_link) [
              | true ↦ read_link read w node >>= λ link. elim link.1 [
                | none ↦ some (link.0, link.2)
                | some path ↦ fs_resolve node_at fuel link.2 t (some path) >>= λ found.
                    elim found.1 [
                      | none ↦ some (as_size found.0, found.2)
                      | some parent ↦ fs_node_write fuel found.2 parent offset buff
                    ]
              ]
              | false ↦
                  if type == fs_node_dir
                  then some (as_size (failed eisdir), w)
                  else some (write w node offset buff)
            ]
          ]
        ]

    -- The number of a failed read of a link comes back as it is, negative for an `int`.
    unfoldable pub fs_node_vioctl : ℕ → W → ℕ → ℕ → ℕ → Option (Ret × W)
    fs_node_vioctl zero w node req ap = none
    fs_node_vioctl (suc fuel) w node req ap =
        let type = fs_node_type_get (node_at w node).mode in
        elim (node_at w node).opts.read [
          | none ↦ some (failed enosys, w)
          | some read ↦ elim (node_at w node).opts.ioctl [
            | none ↦ some (failed enosys, w)
            | some ioctl ↦ elim (type == fs_node_link) [
              | true ↦ read_link read w node >>= λ link. elim link.1 [
                | none ↦ some (value link.0, link.2)
                | some path ↦ fs_resolve node_at fuel link.2 t (some path) >>= λ found.
                    elim found.1 [
                      | none ↦ some (found.0, found.2)
                      | some parent ↦ fs_node_vioctl fuel found.2 parent req ap
                    ]
              ]
              | false ↦
                  if type == fs_node_dir then some (failed eisdir, w) else some (ioctl w req ap)
            ]
          ]
        ]
