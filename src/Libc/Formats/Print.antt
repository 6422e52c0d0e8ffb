-- ===== src/Libc/Formats/Print.antt =====
-- vsnprintf of libraries/libc/src/stdio/vsnprintf.c as a whole: the memory that it leaves and the
-- number that it returns.
use stardustos.Prelude.{
  List, Option, arith, get_or, if◌then◌else◌, length, refl, some, ℕ, ◌%◌, ◌+◌, ◌-◌, ◌<◌, ◌==◌, ◌^◌,
  ◌≡◌,
}
use stardustos.Libc.Memory.{poke}
use stardustos.Libc.Memory.Moves.{within}
use stardustos.Libc.Formats.{Arg, vsnprintf, write_bytes}
use stardustos.Libc.Formats.Render.{render}
use stardustos.Libc.Formats.Written.{write_bytes_lem}
use stardustos.Libc.Formats.Output.{Words, traverse-IsEmitted}

module _ {D : Type 0} (ftoa : D → List ℕ) (m : ℕ → ℕ) (str size : ℕ) (format : List ℕ)
    (args : List (Arg D)) where
  -- A format of text, `%d`, `%s` and `%%` whose text is shorter than the buffer is printed as the
  -- text and a NUL, nothing else is written, and the result is one less than the text's length.
  pub vsnprintf-render :
      {bytes : List ℕ}
      → size < 2 ^ 32
      → Words args
      → render format args ≡ some bytes
      → length bytes < size
      → (m' : ℕ → ℕ) × (vsnprintf ftoa str size m format args
          ≡ some ((length bytes + 2 ^ 32 - 1) % 2 ^ 32, m'))
        × ((a : ℕ)
            → m' a ≡ (
                if a == str + length bytes
                then 0
                else if within str (length bytes) a
                then get_or bytes (a - str) 0
                else m a))
  unfolding vsnprintf poke
  vsnprintf-render {bytes} word w r room =
      let (o, runs, emitted) =
        traverse-IsEmitted ftoa str size word format args (record { mem = m; wrote = 0 })
          {bytes = bytes} w (omega arith) r in
      let count : o.wrote ≡ length bytes = omega (arith, emitted.counted) in
      let result : ℕ → (ℕ → ℕ) → Option (ℕ × (ℕ → ℕ)) =
        λ wrote mem. some ((wrote + 2 ^ 32 - 1) % 2 ^ 32, poke mem (str + wrote) 0) in
      let written = emitted.written (omega (arith, room)) in
      (
        poke (write_bytes m (str + 0) bytes) (str + length bytes) 0,
        rw runs (λ i. result (count i) (written i)),
        λ a. ground (arith, write_bytes_lem m (str + 0) bytes a),
      )

  -- However small the buffer is, the NUL of such a format is written behind the whole text, the
  -- result is the same, and the buffer holds the front of the text.
  pub vsnprintf_overrun :
      {bytes : List ℕ}
      → size < 2 ^ 32
      → Words args
      → render format args ≡ some bytes
      → length bytes < 2 ^ 32
      → (m' : ℕ → ℕ) × (vsnprintf ftoa str size m format args
          ≡ some ((length bytes + 2 ^ 32 - 1) % 2 ^ 32, m'))
        × (m' (str + length bytes) ≡ 0)
        × ((i : ℕ) → i < length bytes → i < size → m' (str + i) ≡ get_or bytes i 0)
  unfolding vsnprintf poke
  vsnprintf_overrun {bytes} word w r few =
      let (o, runs, emitted) =
        traverse-IsEmitted ftoa str size word format args (record { mem = m; wrote = 0 })
          {bytes = bytes} w (omega arith) r in
      let count : o.wrote ≡ length bytes = omega (arith, emitted.counted) in
      let start : str + 0 ≡ str = omega arith in
      (
        poke o.mem (str + length bytes) 0,
        rw (runs, count) refl,
        ground arith,
        λ i lo room.
            ground (arith, start, emitted.shown (omega (arith, few)) i lo (omega (arith, room))),
      )
