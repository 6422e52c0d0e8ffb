-- ===== src/Libc/Formats/Written.antt =====
-- What stands in memory after a run of bytes was written, as libraries/libc/src/stdio/vsnprintf.c
-- writes its pieces.
use stardustos.Prelude.{
  List, [], ap, arith, false, get_or, if◌then◌else◌, length, ltb, refl, suc, zero, ℕ, ◌++◌, ◌+◌,
  ◌-◌, ◌==◌, ◌∙◌, ◌∷◌, ◌≡◌,
}
use stardustos.Libc.Memory.{poke}
use stardustos.Libc.Memory.Moves.{within}
use stardustos.Libc.Formats.{write_bytes}

get_or-cons :
    (b : ℕ) (bs : List ℕ) (n : ℕ)
    → get_or (b ∷ bs) n 0 ≡ (if n == 0 then b else get_or bs (n - 1) 0)
get_or-cons b bs zero = refl
get_or-cons b bs (suc n) = ground arith

pub get_or-append :
    (xs ys : List ℕ) (n : ℕ)
    → get_or (xs ++ ys) n 0
      ≡ (if ltb n (length xs) then get_or xs n 0 else get_or ys (n - length xs) 0)
get_or-append [] ys n =
    let none_left : ltb n 0 ≡ false = ground arith in
    let same : n ≡ n - 0 = omega arith in rw none_left (ap (λ k. get_or ys k 0) same)
get_or-append (x ∷ xs) ys zero = ground arith
get_or-append (x ∷ xs) ys (suc n) = ground (arith, get_or-append xs ys n)

pub write_bytes_lem :
    (m : ℕ → ℕ) (p : ℕ) (bs : List ℕ) (a : ℕ)
    → write_bytes m p bs a ≡ (if within p (length bs) a then get_or bs (a - p) 0 else m a)
unfolding write_bytes poke
write_bytes_lem m p [] a = ground arith
write_bytes_lem m p (b ∷ bs) a =
    let less : a - (p + 1) ≡ a - p - 1 = omega arith in
    ground (arith, write_bytes_lem (poke m p b) (p + 1) bs a, get_or-cons b bs (a - p), less)

pub write_bytes-append :
    (m : ℕ → ℕ) (p : ℕ) (xs ys : List ℕ)
    → write_bytes m p (xs ++ ys) ≡ write_bytes (write_bytes m p xs) (p + length xs) ys
unfolding write_bytes
write_bytes-append m p [] ys = ap (λ q. write_bytes m q ys) (omega arith)
write_bytes-append m p (x ∷ xs) ys =
    write_bytes-append (poke m p x) (p + 1) xs ys
    ∙ ap (λ q. write_bytes (write_bytes (poke m p x) (p + 1) xs) q ys) (omega arith)
