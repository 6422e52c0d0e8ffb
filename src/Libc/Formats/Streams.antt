-- ===== src/Libc/Formats/Streams.antt =====
-- libraries/libc/src/stdio/vfprintf.c: formatted output to a stream. `W` is what the stream's
-- handler acts on, `tmp` the address of the local byte, and `malloc` gives an address, or 0.
use stardustos.Prelude.{
  Bool, Errno, List, Option, [], einval, enosys, if◌then◌else◌, leb, ltb, none, some, suc, zero, ℕ,
  ◌%◌, ◌&&◌, ◌+◌, ◌-◌, ◌==◌, ◌>>=◌, ◌^◌, ◌∷◌,
}
use stardustos.Libc.Formats.{Arg, vsnprintf}

-- `FILE`: the handler takes the stream's offset and the bytes, and gives its `int`.
pub record File (W : Type 0) : Type 0 where
  pub offset : ℕ
  pub write : Option (W → ℕ → List ℕ → ℕ × W)

-- What a call leaves: `errno`, where it is set, the stream, what the handler acts on, the memory.
pub record Left (W : Type 0) : Type 0 where
  pub errno : Option Errno
  pub stream : Option (File W)
  pub world : W
  pub mem : ℕ → ℕ

-- The bytes of a block.
unfoldable pub read_bytes : (ℕ → ℕ) → ℕ → ℕ → List ℕ
read_bytes m p zero = []
read_bytes m p (suc n) = m p ∷ read_bytes m (p + 1) n

-- `r > 0` for an `int`.
abbrev pub is_positive : ℕ → Bool
is_positive r = ltb 0 r && ltb r (2 ^ 31)

-- `-1`
abbrev pub minus_one : ℕ
minus_one = 2 ^ 32 - 1

module _ {D W : Type 0} (ftoa : D → List ℕ) (tmp : ℕ) (malloc : ℕ → ℕ) where
  -- `vsnprintf` into the block, and the handler's call.
  unfoldable pub print_block :
      File W
      → (W → ℕ → List ℕ → ℕ × W)
      → List ℕ
      → List (Arg D)
      → ℕ
      → (ℕ → ℕ)
      → W
      → Option (ℕ × Left W)
  unfolding read_bytes
  print_block f write format args r m w =
      if malloc r == 0
      then some (r, record { errno = none; stream = some f; world = w; mem = m })
      else (vsnprintf ftoa (malloc r) r m format args >>= λ second.
          let done = write w f.offset (read_bytes second.1 (malloc r) r) in
          let moved = if is_positive done.0 then (f.offset + done.0) % 2 ^ 32 else f.offset in
          some (
            done.0,
            record {
              errno = none;
              stream = some (record f { offset = moved });
              world = done.1;
              mem = second.1;
            },
          ))

  -- The body for a stream and its handler, or NULL.
  unfoldable pub print_to :
      File W
      → Option (W → ℕ → List ℕ → ℕ × W)
      → List ℕ
      → List (Arg D)
      → (ℕ → ℕ)
      → W
      → Option (ℕ × Left W)
  unfolding print_block
  print_to f none format args m w =
      some (minus_one, record { errno = some enosys; stream = some f; world = w; mem = m })
  print_to f (some write) format args m w = vsnprintf ftoa tmp 1 m format args >>= λ first.
      if leb (2 ^ 31) first.0
      then some (first.0, record { errno = none; stream = some f; world = w; mem = first.1 })
      else print_block f write format args first.0 first.1 w

  unfoldable pub vfprintf :
      Option (File W) → List ℕ → List (Arg D) → (ℕ → ℕ) → W → Option (ℕ × Left W)
  unfolding print_to
  vfprintf none format args m w =
      some (minus_one, record { errno = some einval; stream = none; world = w; mem = m })
  vfprintf (some f) format args m w = print_to f f.write format args m w
