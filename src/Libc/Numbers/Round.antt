-- ===== src/Libc/Numbers/Round.antt =====
-- ultoa of libraries/libc/src/stdlib/ultoa.c as a whole, beside the value of a string of digits.
use stardustos.Libc.Memory.{poke}
use stardustos.Prelude.{
  ==_refl, >>=-eq-some, Bool-cases, List, [], ap, arith, eq_of_some, false, inl, inr, refl, some,
  subst, suc, sym, true, zero, ℕ, ◌*◌, ◌+◌, ◌-◌, ◌/◌, ◌<◌, ◌==◌, ◌^◌, ◌∙◌, ◌∷◌, ◌≡◌, ◌≤◌,
}
use stardustos.Libc.Numbers.{digit_char, digit_count, digits_from, ultoa}
use stardustos.Libc.Strings.Reads.{IsString}
use stardustos.Libc.Numbers.Digits.{
  IsWritten, division, last_digit, low_digit, more_digits, power_suc, put-IsString, rounds,
  value_of,
}

digit_count-last :
    (fuel number base c : ℕ)
    → number < 2 ^ fuel
    → digit_count (suc fuel) number base ≡ some c
    → (number / base == 0) ≡ true
    → rounds number c ≡ 1
unfolding digit_count
digit_count-last zero number base c few count last = ground arith
digit_count-last (suc fuel) number base c few count last = ground arith

digit_count-more :
    (fuel number base c : ℕ)
    → digit_count (suc fuel) number base ≡ some c
    → (number == 0) ≡ false
    → (c' : ℕ) × (digit_count fuel (number / base) base ≡ some c') × (c ≡ c' + 1)
unfolding digit_count
digit_count-more fuel number base c count some_left =
    let (c', rest, e) =
      >>=-eq-some (digit_count fuel (number / base) base) (λ k. some (k + 1)) {b = c}
        (ground arith) in
    (c', rest, sym (eq_of_some e))

digits_from-IsWritten :
    (fuel : ℕ) (m : ℕ → ℕ) (p number base c : ℕ) (ds : List ℕ)
    → 1 < base
    → base < 17
    → number < 2 ^ fuel
    → digit_count (suc fuel) number base ≡ some c
    → rounds number c ≤ p
    → IsString m p ds
    → IsWritten base number p ds (digits_from (suc fuel) m p number base) (rounds number c)
digits_from-IsWritten zero m p number base c ds big small few count room string =
    let (sum, low, half) = division number base big in
    let last : (number / base == 0) ≡ true = ground arith in
    let once = digit_count-last zero number base c few count last in
    subst (IsWritten base number p ds (digits_from 1 m p number base)) (sym once)
      (last_digit m p number base ds big small (omega (arith, once, room)) string zero last)
digits_from-IsWritten (suc fuel) m p number base c ds big small few count room string =
    elim (Bool-cases (number / base == 0)) [
      | inl last ↦
          let once = digit_count-last (suc fuel) number base c few count last in
          subst (IsWritten base number p ds (digits_from (suc (suc fuel)) m p number base))
            (sym once)
            (last_digit m p number base ds big small (omega (arith, once, room)) string (suc fuel)
              last)
      | inr more ↦
          let (sum, low, half) = division number base big in
          let some_left : (number == 0) ≡ false = ground arith in
          let (c', rest, e) = digit_count-more (suc fuel) number base c count some_left in
          let n_rounds : rounds number c ≡ c' + 1 = ground arith in
          let t_rounds : rounds (number / base) c' ≡ c' = ground arith in
          let d = number - base * (number / base) in
          let positive : 0 < p = omega (arith, n_rounds, room) in
          let ih =
            digits_from-IsWritten fuel
              (poke m (p - 1) (digit_char (number - base * (number / base)))) (p - 1)
              (number / base) base c' (digit_char (number - base * (number / base)) ∷ ds) big small
              (omega (arith, half, power_suc fuel)) rest (omega (arith, n_rounds, t_rounds, room))
              (put-IsString m p (number - base * (number / base)) ds
                (low_digit m p number base ds big small positive string) positive string) in
          subst (IsWritten base number p ds (digits_from (suc (suc fuel)) m p number base))
            (sym n_rounds)
            (more_digits m p number base ds big small positive string (suc fuel) c' more (
              subst
                (IsWritten base (number / base) (p - 1)
                  (digit_char (number - base * (number / base)) ∷ ds)
                  (digits_from (suc fuel)
                    (poke m (p - 1) (digit_char (number - base * (number / base)))) (p - 1)
                    (number / base) base))
                t_rounds ih))
    ]

digit_count-total :
    (fuel number base : ℕ)
    → 1 < base
    → number < 2 ^ fuel
    → (c : ℕ) × (digit_count (suc fuel) number base ≡ some c)
unfolding digit_count
digit_count-total zero number base big few =
    let nothing : (number == 0) ≡ true = ground arith in (0, rw nothing refl)
digit_count-total (suc fuel) number base big few = elim (Bool-cases (number == 0)) [
  | inl nothing ↦ (0, rw nothing refl)
  | inr more ↦
      let (sum, low, half) = division number base big in
      let (c, rest) =
        digit_count-total fuel (number / base) base big (omega (arith, half, power_suc fuel)) in
      (c + 1, rw (more, rest) refl)
]

poke_self : (m : ℕ → ℕ) (a v : ℕ) → poke m a v a ≡ v
unfolding poke
poke_self m a v = rw (==_refl a) refl

-- In a base from 2 to 16, what `ultoa` returns is `ptr`, and the string there reads back as the
-- number. Fuel for one round more than the number has bits is enough.
pub ultoa-value_of :
    (fuel : ℕ) (m : ℕ → ℕ) (number ptr base : ℕ)
    → 0 < ptr
    → 1 < base
    → base < 17
    → number < 2 ^ fuel
    → (ds : List ℕ) × (m' : ℕ → ℕ) × (ultoa (suc fuel) m number ptr base ≡ some (ptr, m'))
      × IsString m' ptr ds
      × (value_of base 0 ds ≡ number)
unfolding ultoa
ultoa-value_of fuel m number ptr base room big small few =
    let (c, count) = digit_count-total fuel number base big few in
    let not_null : (ptr == 0) ≡ false = ground arith in
    let not_zero : (base == 0) ≡ false = ground arith in
    let ended : IsString (poke m (ptr + rounds number c) 0) (ptr + rounds number c) [] =
      poke_self m (ptr + rounds number c) 0 in
    let w =
      digits_from-IsWritten fuel (poke m (ptr + rounds number c) 0) (ptr + rounds number c) number
        base c [] big small few count (omega arith) ended in
    let back : ptr + rounds number c - rounds number c ≡ ptr = omega arith in
    (
      w.ds',
      w.m',
      rw (not_null, not_zero, count) (w.result ∙ ap (λ q. some (q, w.m')) back),
      subst (λ q. IsString w.m' q w.ds') back w.string,
      w.reads,
    )
