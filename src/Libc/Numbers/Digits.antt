-- ===== src/Libc/Numbers/Digits.antt =====
-- One digit of ultoa in libraries/libc/src/stdlib/ultoa.c: the division, the character, and the
-- round of the loop that writes it.
use stardustos.Libc.Strings.Writes.{IsString-poke}
use stardustos.Libc.Memory.{poke}
use stardustos.Prelude.{
  List, Option, [], ap, arith, false, if◌then◌else◌, inl, ltb, refl, some, subst, suc, sym, true, ℕ,
  ◌*◌, ◌+◌, ◌-◌, ◌/◌, ◌<◌, ◌==◌, ◌^◌, ◌∙◌, ◌∷◌, ◌≡◌, ◌≤◌,
}
use stardustos.Libc.Numbers.{digit_char, digits_from}
use stardustos.Libc.Strings.Reads.{IsString}
use native.Mathlib.Nat.{div-add-mod, mod-lt, mul-le-mul_right}

-- The value of a digit, and the number that a string of digits continues a number to.
abbrev pub digit_of : ℕ → ℕ
digit_of c = if ltb c 58 then c - 48 else c - 55

abbrev pub value_of : ℕ → ℕ → List ℕ → ℕ
value_of base v [] = v
value_of base v (c ∷ cs) = value_of base (base * v + digit_of c) cs

digit_of-digit_char : (d : ℕ) → d < 16 → digit_of (digit_char d) ≡ d
unfolding digit_char
digit_of-digit_char d small = ground arith

mul_two : (base t : ℕ) → 1 < base → 2 * t ≤ base * t
mul_two base t h = mul-le-mul_right {m = 2} {n = base} t h

pub division :
    (number base : ℕ)
    → 1 < base
    → (base * (number / base) + (number - base * (number / base)) ≡ number)
      × (number - base * (number / base) < base)
      × (2 * (number / base) ≤ number)
division number base h =
    let whole = div-add-mod number base in
    let low = mod-lt number {m = base} (omega arith) in
    let twice = mul_two base (number / base) h in
    (omega (arith, whole), omega (arith, whole, low), omega (arith, whole, twice))

-- The digits in front of a string.
pub record IsWritten (base number p : ℕ) (ds : List ℕ) (r : Option (ℕ × (ℕ → ℕ))) (count : ℕ)
    : Type 0 where
  pub m' : ℕ → ℕ
  pub ds' : List ℕ
  pub result : r ≡ some (p - count, m')
  pub string : IsString m' (p - count) ds'
  pub reads : value_of base 0 ds' ≡ value_of base number ds

pub power_suc : (n : ℕ) → 2 ^ suc n ≡ 2 * 2 ^ n
power_suc n = omega arith

-- One digit in front of a string.
pub put-IsString :
    (m : ℕ → ℕ) (p d : ℕ) (ds : List ℕ)
    → d < 16
    → 0 < p
    → IsString m p ds
    → IsString (poke m (p - 1) (digit_char d)) (p - 1) (digit_char d ∷ ds)
unfolding poke digit_char
put-IsString m p d ds small room string =
    let back : p - 1 + 1 ≡ p = omega arith in
    (
      ground arith,
      ground arith,
      subst (λ a. IsString (poke m (p - 1) (digit_char d)) a ds) (sym back)
          (IsString-poke m (p - 1) (digit_char d) p ds (inl (omega arith)) string),
    )

abbrev pub rounds : ℕ → ℕ → ℕ
rounds number c = if number == 0 then 1 else c

digits_from-step :
    (fuel : ℕ) (m : ℕ → ℕ) (p number base : ℕ)
    → number - base * (number / base) < 16
    → digits_from (suc fuel) m p number base ≡ (
        if number / base == 0
        then some (p - 1, poke m (p - 1) (digit_char (number - base * (number / base))))
        else digits_from fuel
            (poke m (p - 1) (digit_char (number - base * (number / base))))
            (p - 1)
            (number / base)
            base)
unfolding digits_from
digits_from-step fuel m p number base small =
    let under : ltb (number - base * (number / base)) 16 ≡ true = ground arith in rw under refl

-- Reading on after the new digit.
reads-digit :
    (number base d : ℕ) (ds : List ℕ)
    → d < 16
    → base * (number / base) + d ≡ number
    → value_of base (number / base) (digit_char d ∷ ds) ≡ value_of base number ds
reads-digit number base d ds small sum =
    ap (λ v. value_of base v ds)
      (ap (λ e. base * (number / base) + e) (digit_of-digit_char d small) ∙ sum)

module _ (m : ℕ → ℕ) (p number base : ℕ) (ds : List ℕ) (big : 1 < base) (small : base < 17)
    (room : 0 < p) (string : IsString m p ds) where
  pub low_digit : number - base * (number / base) < 16
  low_digit = let (sum, low, half) = division number base big in omega (arith, low)

  pub last_digit :
      (fuel : ℕ)
      → (number / base == 0) ≡ true
      → IsWritten base number p ds (digits_from (suc fuel) m p number base) 1
  last_digit fuel last =
      let (sum, low, half) = division number base big in
      let d = number - base * (number / base) in
      let zero_left : number / base ≡ 0 = ground arith in
      record {
        m' = poke m (p - 1) (digit_char (number - base * (number / base)));
        ds' = digit_char (number - base * (number / base)) ∷ ds;
        result = digits_from-step fuel m p number base low_digit ∙ rw last refl;
        string = put-IsString m p (number - base * (number / base)) ds low_digit room string;
        reads =
            ap (λ t. value_of base t (digit_char (number - base * (number / base)) ∷ ds))
              (sym zero_left)
            ∙ reads-digit number base (number - base * (number / base)) ds low_digit sum;
      }

  pub more_digits :
      (fuel c : ℕ)
      → (number / base == 0) ≡ false
      → IsWritten base
          (number / base)
          (p - 1)
          (digit_char (number - base * (number / base)) ∷ ds)
          (digits_from fuel
            (poke m (p - 1) (digit_char (number - base * (number / base))))
            (p - 1)
            (number / base)
            base)
          c
      → IsWritten base number p ds (digits_from (suc fuel) m p number base) (c + 1)
  more_digits fuel c more w =
      let (sum, low, half) = division number base big in
      let place : p - 1 - c ≡ p - (c + 1) = omega arith in
      record {
        m' = w.m';
        ds' = w.ds';
        result =
            digits_from-step fuel m p number base low_digit
            ∙ rw more w.result
            ∙ ap (λ q. some (q, w.m')) place;
        string = subst (λ q. IsString w.m' q w.ds') place w.string;
        reads =
            w.reads ∙ reads-digit number base (number - base * (number / base)) ds low_digit sum;
      }
