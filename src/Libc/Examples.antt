-- ===== src/Libc/Examples.antt =====
-- The block and string routines of libraries/libc on a small memory.
use stardustos.Prelude.{
  List, [], arith, codes, get_or, if◌then◌else◌, length, refl, some, str_eq, ℕ, ◌%◌, ◌++◌, ◌+◌, ◌-◌,
  ◌<◌, ◌==◌, ◌^◌, ◌∷◌, ◌≡◌,
}
use stardustos.Libc.Formats.{Arg, int, int_arg, vsnprintf}
use stardustos.Libc.Formats.Render.{decimal, piece, render}
use stardustos.Libc.Formats.Print.{vsnprintf-render}
use stardustos.Libc.Formats.Streams.{File, Left, vfprintf}
use stardustos.Libc.Formats.Sent.{vfprintf_drops_last}
use stardustos.Libc.Memory.{memmove}
use stardustos.Libc.Memory.Moves.{memmove_lem, within}
use stardustos.Libc.Numbers.{ultoa}
use stardustos.Libc.Numbers.Digits.{value_of}
use stardustos.Libc.Numbers.Round.{ultoa-value_of}
use stardustos.Libc.Strings.{strcmp}
use stardustos.Libc.Strings.Reads.{IsString, strcmp-str_eq}

-- "ab" at the addresses 16 and 32, and 0 everywhere else.
abbrev memory : ℕ → ℕ
memory a =
    if a == 16
    then 97
    else if a == 17
    then 98
    else if a == 32
    then 97
    else if a == 33
    then 98
    else 0

memory_bytes : (a : ℕ) → memory a < 2 ^ 8
memory_bytes a = ground arith

abbrev ab : List ℕ
ab = 97 ∷ 98 ∷ []

ab_low : IsString memory 16 ab
ab_low = (refl, omega arith, (refl, omega arith, refl))

ab_high : IsString memory 32 ab
ab_high = (refl, omega arith, (refl, omega arith, refl))

memmove_lem_example :
    memmove memory 17 16 2 18 ≡ (if within 17 2 18 then memory (16 + (18 - 17)) else memory 18)
memmove_lem_example = memmove_lem memory 17 16 2 18

strcmp-str_eq_example : (d : ℕ) × (strcmp memory 5 16 32 ≡ some d) × ((d == 0) ≡ str_eq ab ab)
strcmp-str_eq_example = strcmp-str_eq memory 5 16 32 ab ab memory_bytes ab_low ab_high (omega arith)

ultoa-value_of_example :
    (ds : List ℕ) × (m' : ℕ → ℕ) × (ultoa 9 memory 200 64 16 ≡ some (64, m'))
    × IsString m' 64 ds
    × (value_of 16 0 ds ≡ 200)
ultoa-value_of_example =
    ultoa-value_of 8 memory 200 64 16 (omega arith) (omega arith) (omega arith) (omega arith)

-- "n=%d" with -7, and the text that it stands for.
abbrev minus_seven : List (Arg ℕ)
minus_seven = int (2 ^ 32 - 7) ∷ []

abbrev no_floats : ℕ → List ℕ
no_floats v = []

vsnprintf-render_example :
    (m' : ℕ → ℕ) × (vsnprintf no_floats 64 16 memory (codes "n=%d") minus_seven
      ≡ some ((4 + 2 ^ 32 - 1) % 2 ^ 32, m'))
    × ((a : ℕ)
        → m' a ≡ (
            if a == 64 + 4
            then 0
            else if within 64 4 a
            then get_or (codes "n=-7") (a - 64) 0
            else memory a))
unfolding render piece int_arg decimal
vsnprintf-render_example =
    vsnprintf-render no_floats memory 64 16 (codes "n=%d") minus_seven {bytes = codes "n=-7"}
      (omega arith) (omega arith, tt) refl (omega arith)

-- A stream that keeps what it is handed.
abbrev keep : List ℕ → ℕ → List ℕ → ℕ × List ℕ
keep w offset bytes = (length bytes, bytes)

abbrev kept_stream : File (List ℕ)
kept_stream = record { offset = 0; write = some keep }

vfprintf_drops_last_example :
    (sent : List ℕ) × (last : ℕ) × (left : Left (List ℕ)) × (vfprintf no_floats 16
        (λ n. 128)
        (some kept_stream)
        (codes "n=%d")
        minus_seven
        memory
        []
      ≡ some ((keep [] 0 sent).0, left))
    × (left.world ≡ (keep [] 0 sent).1)
    × (sent ++ (last ∷ []) ≡ codes "n=-7")
    × (left.mem (128 + 4) ≡ 0)
unfolding render piece int_arg decimal
vfprintf_drops_last_example =
    vfprintf_drops_last no_floats 16 (λ n. 128) kept_stream keep (codes "n=%d") minus_seven memory
      [] {bytes = codes "n=-7"} refl (omega arith, tt) refl (omega arith) (omega arith) refl
