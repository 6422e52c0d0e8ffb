-- ===== src/Libc/Formats/Render.antt =====
-- What a format stands for, to compare libraries/libc/src/stdio/vsnprintf.c with: text, `%d`, `%s`
-- and `%%`, and the decimal digits of a number.
use stardustos.Prelude.{
  Bool-cases, List, Option, [], ap, arith, codes, false, if◌then◌else◌, inl, inr, ltb, none, refl,
  some, suc, sym, true, zero, ℕ, ◌%◌, ◌*◌, ◌++◌, ◌+◌, ◌-◌, ◌/◌, ◌<◌, ◌==◌, ◌>>=◌, ◌^◌, ◌∙◌, ◌∷◌,
  ◌≡◌,
}
use stardustos.Libc.Formats.{Arg, convert, digits, int_arg, null_text, text_arg}
use stardustos.Libc.Numbers.{digit_char}
use stardustos.Libc.Numbers.Digits.{power_suc, value_of}

-- The digits of a number, the last one at the end.
unfoldable pub decimal : ℕ → ℕ → List ℕ
decimal zero n = []
decimal (suc fuel) n =
    let front = decimal fuel (n / 10) in
    if n / 10 == 0 then (48 + n % 10) ∷ [] else front ++ ((48 + n % 10) ∷ [])

abbrev pub signed_decimal : ℕ → List ℕ
signed_decimal i = if ltb i (2 ^ 31) then decimal 33 i else b'-' ∷ decimal 33 (2 ^ 32 - i)

module _ {D : Type 0} where
  unfoldable pub piece : ℕ → List (Arg D) → Option (List ℕ × List (Arg D))
  unfolding decimal
  piece d args =
      if d == b'd'
      then (int_arg args >>= λ a. some (signed_decimal a.0, a.1))
      else if d == b's'
      then (text_arg args >>= λ a. some (null_text a.0, a.1))
      else if d == b'%'
      then some (codes "%", args)
      else none

  -- The text of a format with its arguments.
  unfoldable pub render : List ℕ → List (Arg D) → Option (List ℕ)
  render [] args = some []
  render (c ∷ []) args = if c == b'%' then none else some (c ∷ [])
  render (c ∷ d ∷ rest) args = elim (c == b'%') [
    | true ↦ piece d args >>= λ p. render rest p.1 >>= λ more. some (p.0 ++ more)
    | false ↦ render (d ∷ rest) args >>= λ more. some (c ∷ more)
  ]

append_assoc_one : (xs : List ℕ) (y : ℕ) (zs : List ℕ) → (xs ++ (y ∷ [])) ++ zs ≡ xs ++ (y ∷ zs)
append_assoc_one [] y zs = refl
append_assoc_one (x ∷ xs) y zs = ap (λ t. x ∷ t) (append_assoc_one xs y zs)

value_of-append :
    (base v : ℕ) (xs : List ℕ) (d : ℕ)
    → value_of base v (xs ++ (d ∷ [])) ≡ value_of base (value_of base v xs) (d ∷ [])
value_of-append base v [] d = refl
value_of-append base v (x ∷ xs) d =
    value_of-append base (base * v + (if ltb x 58 then x - 48 else x - 55)) xs d

-- The digits read back as the number.
pub decimal-value_of : (fuel n : ℕ) → n < 2 ^ fuel → value_of 10 0 (decimal (suc fuel) n) ≡ n
unfolding decimal
decimal-value_of zero n small = ground arith
decimal-value_of (suc fuel) n small = elim (Bool-cases (n / 10 == 0)) [
  | inl last ↦ rw last (ground arith)
  | inr more ↦
      rw
        (
          more,
          value_of-append 10 0 (decimal (suc fuel) (n / 10)) (48 + n % 10),
          decimal-value_of fuel (n / 10) (omega (arith, power_suc fuel)),
        )
        (ground arith)
]

convert-step :
    (fuel n : ℕ) (ptr : List ℕ)
    → convert (suc fuel) n 10 ptr ≡ (
        if n / 10 == 0
        then some ((48 + n % 10) ∷ ptr)
        else convert fuel (n / 10) 10 ((48 + n % 10) ∷ ptr))
unfolding convert digit_char
convert-step fuel n ptr =
    let digit : digit_char (n % 10) ≡ 48 + n % 10 = ground arith in rw digit refl

decimal-step :
    (fuel n : ℕ)
    → decimal (suc fuel) n
      ≡ (if n / 10 == 0 then (48 + n % 10) ∷ [] else decimal fuel (n / 10) ++ ((48 + n % 10) ∷ []))
unfolding decimal
decimal-step fuel n = refl

-- The loop of `convert` ends, and puts the digits in front of what stands there.
pub convert-decimal :
    (fuel n : ℕ) (ptr : List ℕ)
    → n < 2 ^ fuel
    → convert (suc fuel) n 10 ptr ≡ some (decimal (suc fuel) n ++ ptr)
convert-decimal zero n ptr small =
    let last : (n / 10 == 0) ≡ true = ground arith in
    rw (convert-step 0 n ptr, decimal-step 0 n, last) refl
convert-decimal (suc fuel) n ptr small = elim (Bool-cases (n / 10 == 0)) [
  | inl last ↦ rw (convert-step (suc fuel) n ptr, decimal-step (suc fuel) n, last) refl
  | inr more ↦
      rw (convert-step (suc fuel) n ptr, decimal-step (suc fuel) n, more)
        (convert-decimal fuel (n / 10) ((48 + n % 10) ∷ ptr) (omega (arith, power_suc fuel))
          ∙ ap some (sym (append_assoc_one (decimal (suc fuel) (n / 10)) (48 + n % 10) ptr)))
]

append_nil : (xs : List ℕ) → xs ++ [] ≡ xs
append_nil [] = refl
append_nil (x ∷ xs) = ap (λ t. x ∷ t) (append_nil xs)

pub digits-decimal : (n : ℕ) → n < 2 ^ 32 → digits n ≡ some (decimal 33 n)
digits-decimal n small = convert-decimal 32 n [] small ∙ ap some (append_nil (decimal 33 n))
