-- ===== src/Libc/Formats.antt =====
-- libraries/libc/src/stdio/vsnprintf.c, snprintf.c and vfprintf.c: formatted output into memory.
-- `D` is `double`, and `ftoa` gives the bytes that strncpy takes from the buffer that ftoa
-- fills. An `int` is its 32 bits, and a `va_list` is the list of the arguments that are left.
-- `none` is a fault.
use stardustos.Prelude.{
  List, Option, [], codes, false, if◌then◌else◌, length, ltb, none, some, suc, true, zero, ℕ, ◌%◌,
  ◌+◌, ◌-◌, ◌/◌, ◌==◌, ◌>>=◌, ◌^◌, ◌∷◌,
}
use stardustos.Libc.Memory.{poke}
use stardustos.Libc.Numbers.{digit_char}
pub mod Render
pub mod Written
pub mod Output
pub mod Print
pub mod Streams
pub mod Sent

pub data Arg (D : Type 0) : Type 0 where
  int : ℕ → Arg D
  long : ℕ → Arg D
  text : Option (List ℕ) → Arg D
  double : D → Arg D

-- `do { *--ptr = rep[num % base]; num /= base; } while (num != 0);`, with the bytes from `ptr` on.
unfoldable pub convert : ℕ → ℕ → ℕ → List ℕ → Option (List ℕ)
unfolding digit_char
convert zero num base ptr = none
convert (suc fuel) num base ptr =
    let next = digit_char (num % base) ∷ ptr in
    let rest = convert fuel (num / base) base next in if num / base == 0 then some next else rest

-- 33 rounds are enough for 32 bits.
abbrev pub digits : ℕ → Option (List ℕ)
digits num = convert 33 num 10 []

unfoldable pub write_bytes : (ℕ → ℕ) → ℕ → List ℕ → ℕ → ℕ
write_bytes m p [] = m
write_bytes m p (b ∷ bs) = write_bytes (poke m p b) (p + 1) bs

-- The memory and `wrote`.
pub record Out : Type 0 where
  pub mem : ℕ → ℕ
  pub wrote : ℕ

-- `if (wrote < size) …; wrote += …;` for one piece of text.
unfoldable pub emit : ℕ → ℕ → List ℕ → Out → Out
unfolding write_bytes
emit str size bytes o = record {
  mem = if ltb o.wrote size then write_bytes o.mem (str + o.wrote) bytes else o.mem;
  wrote = (o.wrote + length bytes) % 2 ^ 32;
}

-- `va_arg`, where an argument of another type, or none, is a fault.
module _ {D : Type 0} where
  unfoldable pub int_arg : List (Arg D) → Option (ℕ × List (Arg D))
  int_arg (int i ∷ args) = some (i, args)
  int_arg _ = none

  unfoldable pub long_arg : List (Arg D) → Option (ℕ × List (Arg D))
  long_arg (long i ∷ args) = some (i, args)
  long_arg _ = none

  unfoldable pub text_arg : List (Arg D) → Option (Option (List ℕ) × List (Arg D))
  text_arg (text s ∷ args) = some (s, args)
  text_arg _ = none

  unfoldable pub double_arg : List (Arg D) → Option (D × List (Arg D))
  double_arg (double v ∷ args) = some (v, args)
  double_arg _ = none

-- `i = -i;`
abbrev pub negate : ℕ → ℕ
negate i = (2 ^ 32 - i) % 2 ^ 32

abbrev pub null_text : Option (List ℕ) → List ℕ
null_text none = codes "(null)"
null_text (some s) = s

module _ {D : Type 0} (ftoa : D → List ℕ) (str size : ℕ) where
  -- The case of `%d`.
  unfoldable pub put_signed : ℕ → Out → Option Out
  unfolding emit convert
  put_signed i o =
      if ltb i (2 ^ 31)
      then (digits i >>= λ s. some (emit str size s o))
      else (digits (negate i) >>= λ s. some (emit str size s (emit str size (codes "-") o)))

  -- The switch on the letter `d` after the `%`.
  unfoldable pub directive : ℕ → List (Arg D) → Out → Option (List (Arg D) × Out)
  directive d args o =
      if d == b'c'
      then (int_arg args >>= λ a. some (a.1, emit str size (d ∷ []) o))
      else if d == b'd'
      then (int_arg args >>= λ a. put_signed a.0 o >>= λ o'. some (a.1, o'))
      else if d == b'o'
      then (int_arg args >>= λ a. digits a.0 >>= λ s. some (a.1, emit str size s o))
      else if d == b's'
      then (text_arg args >>= λ a. some (a.1, emit str size (null_text a.0) o))
      else if d == b'x'
      then (int_arg args >>= λ a. digits a.0 >>= λ s. some (a.1, emit str size s o))
      else if d == b'f'
      then (double_arg args >>= λ a. some (a.1, emit str size (ftoa a.0) o))
      else if d == b'l'
      then (long_arg args >>= λ a. digits a.0 >>= λ s. some (a.1, emit str size s o))
      else if d == b'%'
      then some (args, emit str size (codes "%") o)
      else some (args, o)

  -- The loop over the format. A `%` at its end makes it run past the NUL.
  unfoldable pub traverse : List ℕ → List (Arg D) → Out → Option Out
  traverse [] args o = some o
  traverse (c ∷ []) args o = if c == b'%' then none else some (emit str size (c ∷ []) o)
  traverse (c ∷ d ∷ rest) args o = elim (c == b'%') [
    | true ↦ directive d args o >>= λ next. traverse rest next.0 next.1
    | false ↦ traverse (d ∷ rest) args (emit str size (c ∷ []) o)
  ]

  -- The number of the result is an `int`.
  unfoldable pub vsnprintf : (ℕ → ℕ) → List ℕ → List (Arg D) → Option (ℕ × (ℕ → ℕ))
  vsnprintf m format args = traverse format args (record { mem = m; wrote = 0 }) >>= λ o.
      some ((o.wrote + 2 ^ 32 - 1) % 2 ^ 32, poke o.mem (str + o.wrote) 0)
