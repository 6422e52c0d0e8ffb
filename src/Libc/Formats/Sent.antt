-- ===== src/Libc/Formats/Sent.antt =====
-- What vfprintf of libraries/libc/src/stdio/vfprintf.c hands to the stream.
use stardustos.Prelude.{
  List, [], ap, arith, false, get_or, if◌then◌else◌, leb, length, none, refl, some, suc, zero, ℕ,
  ◌%◌, ◌++◌, ◌+◌, ◌-◌, ◌<◌, ◌==◌, ◌^◌, ◌∙◌, ◌∷◌, ◌≡◌,
}
use stardustos.Libc.Formats.{Arg, vsnprintf}
use stardustos.Libc.Formats.Render.{render}
use stardustos.Libc.Formats.Output.{Words}
use stardustos.Libc.Formats.Print.{vsnprintf_overrun}
use stardustos.Libc.Formats.Streams.{
  File, Left, is_positive, print_block, print_to, read_bytes, vfprintf,
}

-- A block that holds all bytes of a text but the last reads as the text without it.
read_bytes-front :
    (m : ℕ → ℕ) (p n : ℕ) (bytes : List ℕ)
    → length bytes ≡ suc n
    → ((i : ℕ) → i < n → m (p + i) ≡ get_or bytes i 0)
    → (last : ℕ) × (read_bytes m p n ++ (last ∷ []) ≡ bytes)
unfolding read_bytes
read_bytes-front m p n [] size holds = absurd (omega (arith, size))
read_bytes-front m p zero (b ∷ []) size holds = (b, refl)
read_bytes-front m p zero (b ∷ c ∷ bs) size holds = absurd (omega (arith, size))
read_bytes-front m p (suc n) (b ∷ bs) size holds =
    let start : p ≡ p + 0 = omega arith in
    let at_first : m p ≡ b = ap m start ∙ holds 0 (omega arith) in
    let (last, whole) = read_bytes-front m (p + 1) n bs (omega (arith, size)) (λ i below.
      let next : p + 1 + i ≡ p + suc i = omega arith in
      ap m next ∙ holds (suc i) (omega (arith, below))) in
    (last, λ i. at_first i ∷ whole i)

module _ {D W : Type 0} (ftoa : D → List ℕ) (tmp : ℕ) (malloc : ℕ → ℕ) where
  -- What is left where the block was allocated and printed to.
  abbrev after_print : File W → (W → ℕ → List ℕ → ℕ × W) → W → List ℕ → (ℕ → ℕ) → Left W
  after_print f write w sent m = record {
    errno = none;
    stream = some (record f {
      offset =
          if is_positive (write w f.offset sent).0
          then (f.offset + (write w f.offset sent).0) % 2 ^ 32
          else f.offset;
    });
    world = (write w f.offset sent).1;
    mem = m;
  }

  module _ (f : File W) (write : W → ℕ → List ℕ → ℕ × W) (format : List ℕ) (args : List (Arg D))
      (w : W) where
    print_block-vsnprintf :
        (n k : ℕ) (m m' : ℕ → ℕ)
        → (malloc n == 0) ≡ false
        → vsnprintf ftoa (malloc n) n m format args ≡ some (k, m')
        → print_block ftoa tmp malloc f write format args n m w
          ≡ some (
            (write w f.offset (read_bytes m' (malloc n) n)).0,
            after_print f write w (read_bytes m' (malloc n) n) m',
          )
    unfolding print_block
    print_block-vsnprintf n k m m' block two = rw (block, two) refl

    vfprintf-print_block :
        (k : ℕ) (m m' : ℕ → ℕ)
        → f.write ≡ some write
        → vsnprintf ftoa tmp 1 m format args ≡ some (k, m')
        → leb (2 ^ 31) k ≡ false
        → vfprintf ftoa tmp malloc (some f) format args m w
          ≡ print_block ftoa tmp malloc f write format args k m' w
    unfolding vfprintf print_to
    vfprintf-print_block k m m' handler one plus =
        ap (λ h. print_to ftoa tmp malloc f h format args m w) handler ∙ rw (one, plus) refl

  -- Where the text of a format of `%d`, `%s` and `%%` has at least one byte and fewer than 2 ^ 31,
  -- the stream has a handler, and `malloc` finds memory, the handler gets the text without its last
  -- byte, and a NUL is written to the second byte behind the block that was allocated.
  pub vfprintf_drops_last :
      (f : File W) (write : W → ℕ → List ℕ → ℕ × W) (format : List ℕ) (args : List (Arg D))
      (m : ℕ → ℕ) (w : W) {bytes : List ℕ}
      → f.write ≡ some write
      → Words args
      → render format args ≡ some bytes
      → 0 < length bytes
      → length bytes < 2 ^ 31
      → (malloc (length bytes - 1) == 0) ≡ false
      → (sent : List ℕ) × (last : ℕ) × (left : Left W) × (vfprintf ftoa tmp malloc
            (some f)
            format
            args
            m
            w
          ≡ some ((write w f.offset sent).0, left))
        × (left.world ≡ (write w f.offset sent).1)
        × (sent ++ (last ∷ []) ≡ bytes)
        × (left.mem (malloc (length bytes - 1) + length bytes) ≡ 0)
  vfprintf_drops_last f write format args m w {bytes} handler words r some_text few block =
      let n : ℕ = length bytes - 1 in
      let count : (length bytes + 2 ^ 32 - 1) % 2 ^ 32 ≡ length bytes - 1 =
        omega (arith, some_text, few) in
      let (m1, first, _, _) =
        vsnprintf_overrun ftoa m tmp 1 format args {bytes = bytes} (omega arith) words r
          (omega (arith, few)) in
      let (m2, second, behind, front) =
        vsnprintf_overrun ftoa m1 (malloc (length bytes - 1)) (length bytes - 1) format args
          {bytes = bytes} (omega (arith, few)) words r (omega (arith, few)) in
      let plus : leb (2 ^ 31) (length bytes - 1) ≡ false = ground arith in
      let one = first ∙ ap (λ k. some (k, m1)) count in
      let printed =
        print_block-vsnprintf f write format args w n ((length bytes + 2 ^ 32 - 1) % 2 ^ 32) m1 m2
          block second in
      let (last, whole) =
        read_bytes-front m2 (malloc n) n bytes (omega (arith, some_text))
          (λ i below. front i (omega (arith, below)) below) in
      (
        read_bytes m2 (malloc n) n,
        last,
        after_print f write w (read_bytes m2 (malloc n) n) m2,
        vfprintf-print_block f write format args w n m m1 handler one plus ∙ printed,
        refl,
        whole,
        behind,
      )
