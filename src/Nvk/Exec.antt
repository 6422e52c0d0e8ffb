-- ===== src/Nvk/Exec.antt =====
-- proc_exec of tools/nvk/src/proc.c, with elf_isvalid of libraries/libfile/src/elf.c. The file
-- system is that of Fs; `W` is what it and the programs act on.
use stardustos.Prelude.{
  Bool, List, Option, as_size, drop, einval, enomem, failed, false, get_or, if◌then◌else◌, length,
  ltb, none, some, suc, true, zero, ℕ, ◌%◌, ◌&&◌, ◌*◌, ◌++◌, ◌+◌, ◌==◌, ◌>>=◌, ◌^◌, ◌||◌,
}
use stardustos.Fs.{Node, Tables}
use stardustos.Fs.Files.{fs_node_read, is_negative}
use stardustos.Fs.Mounts.{fs_resolve}
use stardustos.Nvk.{Procs, Request, proc_create, proc_go, process_curr, write}

-- A little-endian field of two or of four bytes.
abbrev pub field16 : List ℕ → ℕ → ℕ
field16 bytes i = get_or bytes i 0 + get_or bytes (i + 1) 0 * 2 ^ 8

abbrev pub field32 : List ℕ → ℕ → ℕ
field32 bytes i = field16 bytes i + field16 bytes (i + 2) * 2 ^ 16

-- The magic number, 32 bits, little-endian, one of three types, and the version; a block that ends
-- before the version is a fault.
unfoldable pub elf_isvalid : List ℕ → Option Bool
elf_isvalid bytes =
    let type = field16 bytes 16 in
    if ltb (length bytes) 24
    then none
    else some (
        (get_or bytes 0 0 == 127)
        && ((get_or bytes 1 0 == b'E')
            && ((get_or bytes 2 0 == b'L')
                && ((get_or bytes 3 0 == b'F')
                    && ((get_or bytes 4 0 == 1)
                        && ((get_or bytes 5 0 == 1)
                            && ((type == 1 || (type == 2 || type == 3))
                                && (field32 bytes 20 == 1))))))))

-- A read into the start of a block; a read of more than the block is a fault.
unfoldable pub overlay : List ℕ → List ℕ → Option (List ℕ)
overlay bytes block =
    if ltb (length block) (length bytes) then none else some (bytes ++ drop (length bytes) block)

module _ {W : Type 0} (node_at : W → ℕ → Node W) (t : Tables W) (links : ℕ) where
  -- The loop that reads the file: every read starts at the front of the block. The result is the
  -- negative number of a failed read, if one failed, and the block.
  unfoldable pub read_from : ℕ → W → ℕ → ℕ → List ℕ → Option (Option ℕ × List ℕ × W)
  unfolding overlay
  read_from zero w node total prog = none
  read_from (suc fuel) w node total prog = elim (ltb total (node_at w node).size) [
    | false ↦ some (none, prog, w)
    | true ↦ fs_node_read node_at t links w node total (node_at w node).size >>= λ r.
        elim (is_negative r.0) [
          | true ↦ some (some r.0, prog, r.2)
          | false ↦
              overlay r.1 prog >>= λ prog'. read_from fuel r.2 node ((total + r.0) % 2 ^ 32) prog'
        ]
  ]

  module _ (nvk_emu : Option (List ℕ) → ℕ → ℕ → Procs × W → Bool × Procs × W)
      (call : ℕ → ℕ → Procs × W → Procs × W) where
    -- The program of a valid file, started as a child of the current process.
    unfoldable pub start_program : Request → List ℕ → List ℕ → Procs × W → Option (ℕ × Procs × W)
    start_program r path prog s =
        let parent : Option ℕ = elim (process_curr s.0) [ none ↦ none | some p ↦ some p.id ] in
        proc_create s.0 (record r { parent = parent; name = path; isuser = true }) >>= λ made.
        elim made.0 [
          | none ↦ some (as_size (failed einval), made.1, s.1)
          | some pid ↦
              proc_go nvk_emu call (write pid (λ p. record p { prog = some prog }) made.1, s.1) pid
              >>= λ done. some (pid, done.0, done.1)
        ]

    -- `block` is what `malloc` gives; the result is an `int`.
    unfoldable pub proc_exec :
        ℕ → Request → Option (List ℕ) → List ℕ → Procs × W → Option (ℕ × Procs × W)
    unfolding read_from elf_isvalid start_program
    proc_exec fuel r block path s = fs_resolve node_at links s.1 t (some path) >>= λ found.
        elim found.1 [
          | none ↦ some (as_size found.0, s.0, found.2)
          | some node ↦ elim block [
            | none ↦ some (as_size (failed enomem), s.0, found.2)
            | some junk ↦ read_from fuel found.2 node 0 junk >>= λ loaded. elim loaded.0 [
              | some error ↦ some (error, s.0, loaded.2)
              | none ↦ elf_isvalid loaded.1 >>= λ valid.
                  if valid
                  then start_program r path loaded.1 (s.0, loaded.2)
                  else some (as_size (failed einval), s.0, loaded.2)
            ]
          ]
        ]
