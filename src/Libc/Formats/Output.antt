-- ===== src/Libc/Formats/Output.antt =====
-- What vsnprintf of libraries/libc/src/stdio/vsnprintf.c writes, against the text of the format.
use stardustos.Prelude.{
  ==_iff, >>=-eq-some, Bool-cases, List, [], ap, arith, codes, eq_of_some, false, get_or, inl, inr,
  length, length-append, ltb, refl, some, subst, sym, true, ℕ, ◌%◌, ◌++◌, ◌+◌, ◌-◌, ◌<◌, ◌==◌,
  ◌>>=◌, ◌^◌, ◌∙◌, ◌∷◌, ◌≡◌, ◌⊎◌,
}
use stardustos.Libc.Formats.Render.{decimal, digits-decimal, piece, render, signed_decimal}
use stardustos.Libc.Formats.Written.{get_or-append, write_bytes-append, write_bytes_lem}
use stardustos.Libc.Formats.{
  Arg, Out, directive, double, emit, int, int_arg, long, null_text, put_signed, text, text_arg,
  traverse, write_bytes,
}

module _ (str size : ℕ) (word : size < 2 ^ 32) where
  -- From one state to the next a text has been counted, and, where there is room for it, written.
  pub record IsEmitted (o : Out) (bytes : List ℕ) (o' : Out) : Type 0 where
    pub counted : o'.wrote ≡ (o.wrote + length bytes) % 2 ^ 32
    pub written : o.wrote + length bytes < size → o'.mem ≡ write_bytes o.mem (str + o.wrote) bytes
    pub shown :
        o.wrote + length bytes < 2 ^ 32
        → (i : ℕ) → i < length bytes
        → o.wrote + i < size
        → o'.mem (str + o.wrote + i) ≡ get_or bytes i 0
    pub behind : o.wrote + length bytes < 2 ^ 32 → (a : ℕ) → a < str + o.wrote → o'.mem a ≡ o.mem a

  emit-IsEmitted : (o : Out) (bytes : List ℕ) → IsEmitted o bytes (emit str size bytes o)
  unfolding emit
  emit-IsEmitted o bytes = record {
    counted = refl;
    written = λ room. ground arith;
    shown = λ few i lo room.
        let offset : str + o.wrote + i - (str + o.wrote) ≡ i = omega arith in
        ground (arith, write_bytes_lem o.mem (str + o.wrote) bytes (str + o.wrote + i), offset);
    behind = λ few a lo. ground (arith, write_bytes_lem o.mem (str + o.wrote) bytes a);
  }

  IsEmitted-append :
      {o o1 o2 : Out} (xs ys : List ℕ)
      → IsEmitted o xs o1
      → IsEmitted o1 ys o2
      → IsEmitted o (xs ++ ys) o2
  IsEmitted-append {o} {o1} {o2} xs ys one two = record {
    counted = omega (arith, one.counted, two.counted, length-append {0} xs ys);
    written = λ room.
        let sum = length-append {0} xs ys in
        let place : o1.wrote ≡ o.wrote + length xs = omega (arith, one.counted, sum, room) in
        let from : str + o1.wrote ≡ str + o.wrote + length xs = omega (arith, place) in
        two.written (omega (arith, place, sum, room))
        ∙ (λ i. write_bytes (one.written (omega (arith, sum, room)) i) (from i) ys)
        ∙ sym (write_bytes-append o.mem (str + o.wrote) xs ys);
    shown = λ few i lo room.
        let sum = length-append {0} xs ys in
        let place : o1.wrote ≡ o.wrote + length xs = omega (arith, one.counted, sum, few) in
        elim (Bool-cases (ltb i (length xs))) [
          | inl front ↦
              rw (get_or-append xs ys i, front)
                (two.behind (omega (arith, place, sum, few)) (str + o.wrote + i)
                    (ground (arith, place, front))
                  ∙ one.shown (omega (arith, sum, few)) i (ground (arith, front)) room)
          | inr back ↦
              let there : str + o.wrote + i ≡ str + o1.wrote + (i - length xs) =
                ground (arith, place, back) in
              rw (get_or-append xs ys i, back)
                (ap o2.mem there
                  ∙ two.shown (omega (arith, place, sum, few)) (i - length xs)
                      (ground (arith, sum, lo, back)) (ground (arith, place, room, back)))
        ];
    behind = λ few a lo.
        let sum = length-append {0} xs ys in
        let place : o1.wrote ≡ o.wrote + length xs = omega (arith, one.counted, sum, few) in
        two.behind (omega (arith, place, sum, few)) a (omega (arith, place, lo))
        ∙ one.behind (omega (arith, sum, few)) a lo;
  }

-- Every word among the arguments has 32 bits.
abbrev pub Words : {D : Type 0} → List (Arg D) → Type 0
Words [] = Unit
Words (int i ∷ args) = (i < 2 ^ 32) × Words args
Words (long i ∷ args) = (i < 2 ^ 32) × Words args
Words (text s ∷ args) = Words args
Words (double v ∷ args) = Words args

module _ {D : Type 0} (ftoa : D → List ℕ) (str size : ℕ) (word : size < 2 ^ 32) where
  put_signed-IsEmitted :
      (i : ℕ) (o : Out)
      → i < 2 ^ 32
      → (o' : Out) × (put_signed ftoa str size i o ≡ some o')
        × IsEmitted str size word o (signed_decimal i) o'
  unfolding put_signed
  put_signed-IsEmitted i o small = elim (Bool-cases (ltb i (2 ^ 31))) [
    | inl plus ↦ (
      emit str size (decimal 33 i) o,
      rw (plus, digits-decimal i small) refl,
      rw plus (emit-IsEmitted str size word o (decimal 33 i)),
    )
    | inr minus ↦
        let n : (2 ^ 32 - i) % 2 ^ 32 ≡ 2 ^ 32 - i = ground arith in
        let shown = digits-decimal (2 ^ 32 - i) (ground arith) in
        let o1 = emit str size (codes "-") o in
        (
          emit str size (decimal 33 (2 ^ 32 - i)) (emit str size (codes "-") o),
          rw (minus, n, shown) refl,
          rw minus (
              IsEmitted-append str size word (codes "-") (decimal 33 (2 ^ 32 - i))
                (emit-IsEmitted str size word o (codes "-"))
                (emit-IsEmitted str size word o1 (decimal 33 (2 ^ 32 - i)))),
        )
  ]

  -- What a directive does where the reference gives a text and leaves some arguments.
  abbrev Shows : ℕ → List (Arg D) → Out → List ℕ × List (Arg D) → Type 0
  Shows d args o r =
      (o' : Out) × (directive ftoa str size d args o ≡ some (r.1, o'))
      × IsEmitted str size word o r.0 o'
      × Words r.1

  number-Shows :
      (args : List (Arg D)) (o : Out) (r : List ℕ × List (Arg D))
      → Words args
      → piece b'd' args ≡ some r
      → Shows b'd' args o r
  unfolding directive piece int_arg
  number-Shows [] o r w p = cc
  number-Shows (int i ∷ args) o r w p =
      let (o', put, emitted) = put_signed-IsEmitted i o w.0 in
      subst (Shows b'd' (int i ∷ args) o) (eq_of_some p) (o', rw put refl, emitted, w.1)
  number-Shows (long i ∷ args) o r w p = cc
  number-Shows (text s ∷ args) o r w p = cc
  number-Shows (double v ∷ args) o r w p = cc

  text-Shows :
      (args : List (Arg D)) (o : Out) (r : List ℕ × List (Arg D))
      → Words args
      → piece b's' args ≡ some r
      → Shows b's' args o r
  unfolding directive piece text_arg
  text-Shows [] o r w p = cc
  text-Shows (int i ∷ args) o r w p = cc
  text-Shows (long i ∷ args) o r w p = cc
  text-Shows (text s ∷ args) o r w p =
      subst (Shows b's' (text s ∷ args) o) (eq_of_some p)
        (emit str size (null_text s) o, refl, emit-IsEmitted str size word o (null_text s), w)
  text-Shows (double v ∷ args) o r w p = cc

  percent-Shows :
      (args : List (Arg D)) (o : Out) (r : List ℕ × List (Arg D))
      → Words args
      → piece b'%' args ≡ some r
      → Shows b'%' args o r
  unfolding directive piece
  percent-Shows args o r w p =
      subst (Shows b'%' args o) (eq_of_some p)
        (emit str size (codes "%") o, refl, emit-IsEmitted str size word o (codes "%"), w)

  known_letter :
      (d : ℕ) (args : List (Arg D)) {r : List ℕ × List (Arg D)}
      → piece d args ≡ some r
      → ((d == b'd') ≡ true) ⊎ (((d == b's') ≡ true) ⊎ ((d == b'%') ≡ true))
  unfolding piece
  known_letter d args {r} p = elim (Bool-cases (d == b'd')) [
    | inl e ↦ inl e
    | inr nd ↦ elim (Bool-cases (d == b's')) [
      | inl e ↦ inr (inl e)
      | inr ns ↦ elim (Bool-cases (d == b'%')) [ inl e ↦ inr (inr e) | inr np ↦ ground arith ]
    ]
  ]

  letter-Shows :
      (d letter : ℕ) (args : List (Arg D)) (o : Out) (r : List ℕ × List (Arg D))
      → (d == letter) ≡ true
      → piece d args ≡ some r
      → (piece letter args ≡ some r → Shows letter args o r)
      → Shows d args o r
  letter-Shows d letter args o r e p at_letter =
      let same = (==_iff d letter).0 e in
      subst (λ x. Shows x args o r) (sym same)
        (at_letter (subst (λ x. piece x args ≡ some r) same p))

  -- One directive that the reference knows.
  directive-Shows :
      (d : ℕ) (args : List (Arg D)) (o : Out) (r : List ℕ × List (Arg D))
      → Words args
      → piece d args ≡ some r
      → Shows d args o r
  directive-Shows d args o r w p = elim (known_letter d args {r = r} p) [
    | inl e ↦ letter-Shows d b'd' args o r e p (number-Shows args o r w)
    | inr (inl e) ↦ letter-Shows d b's' args o r e p (text-Shows args o r w)
    | inr (inr e) ↦ letter-Shows d b'%' args o r e p (percent-Shows args o r w)
  ]

  render-percent :
      (c d : ℕ) (rest : List ℕ) (args : List (Arg D))
      → (c == b'%') ≡ true
      → render (c ∷ d ∷ rest) args
        ≡ (piece d args >>= λ p. render rest p.1 >>= λ more. some (p.0 ++ more))
  unfolding render
  render-percent c d rest args e = rw (e, render) refl

  render-plain :
      (c d : ℕ) (rest : List ℕ) (args : List (Arg D))
      → (c == b'%') ≡ false
      → render (c ∷ d ∷ rest) args ≡ (render (d ∷ rest) args >>= λ more. some (c ∷ more))
  unfolding render
  render-plain c d rest args e = rw (e, render) refl

  traverse-percent :
      (c d : ℕ) (rest : List ℕ) (args : List (Arg D)) (o : Out)
      → (c == b'%') ≡ true
      → traverse ftoa str size (c ∷ d ∷ rest) args o
        ≡ (directive ftoa str size d args o >>= λ next. traverse ftoa str size rest next.0 next.1)
  unfolding traverse
  traverse-percent c d rest args o e = rw (e, traverse) refl

  traverse-plain :
      (c d : ℕ) (rest : List ℕ) (args : List (Arg D)) (o : Out)
      → (c == b'%') ≡ false
      → traverse ftoa str size (c ∷ d ∷ rest) args o
        ≡ traverse ftoa str size (d ∷ rest) args (emit str size (c ∷ []) o)
  unfolding traverse
  traverse-plain c d rest args o e = rw (e, traverse) refl

  IsEmitted-word :
      {o o' : Out} (bytes : List ℕ) → IsEmitted str size word o bytes o' → o'.wrote < 2 ^ 32
  IsEmitted-word bytes emitted = omega (arith, emitted.counted)

  -- The loop against the reference.
  pub traverse-IsEmitted :
      (format : List ℕ) (args : List (Arg D)) (o : Out) {bytes : List ℕ}
      → Words args
      → o.wrote < 2 ^ 32
      → render format args ≡ some bytes
      → (o' : Out) × (traverse ftoa str size format args o ≡ some o')
        × IsEmitted str size word o bytes o'
  unfolding traverse render write_bytes
  traverse-IsEmitted [] args o {bytes} w small r =
      subst (λ b. (o' : Out) × (some o ≡ some o') × IsEmitted str size word o b o') (eq_of_some r)
        (
          o,
          refl,
          record {
            counted = omega arith;
            written = λ room. refl;
            shown = λ few i lo room. absurd (omega arith);
            behind = λ few a lo. refl;
          },
        )
  traverse-IsEmitted (c ∷ []) args o {bytes} w small r = elim (Bool-cases (c == b'%')) [
    | inl e ↦ ground arith
    | inr e ↦
        let text : c ∷ [] ≡ bytes = ground arith in
        (
          emit str size (c ∷ []) o,
          rw e refl,
          subst (λ b. IsEmitted str size word o b (emit str size (c ∷ []) o)) text
              (emit-IsEmitted str size word o (c ∷ [])),
        )
  ]
  traverse-IsEmitted (c ∷ d ∷ rest) args o {bytes} w small r = elim (Bool-cases (c == b'%')) [
    | inl e ↦
        let (p, one, more) =
          >>=-eq-some (piece d args) (λ p. render rest p.1 >>= λ more. some (p.0 ++ more))
            {b = bytes} (sym (render-percent c d rest args e) ∙ r) in
        let (tail, two, all) =
          >>=-eq-some (render rest p.1) (λ more. some (p.0 ++ more)) {b = bytes} more in
        let (o1, does, emitted, words) = directive-Shows d args o p w one in
        let (o2, goes_on, rest_emitted) =
          traverse-IsEmitted rest p.1 o1 {bytes = tail} words (IsEmitted-word p.0 emitted) two in
        (
          o2,
          traverse-percent c d rest args o e ∙ rw does goes_on,
          subst (λ b. IsEmitted str size word o b o2) (eq_of_some all)
              (IsEmitted-append str size word p.0 tail emitted rest_emitted),
        )
    | inr e ↦
        let (tail, two, all) =
          >>=-eq-some (render (d ∷ rest) args) (λ more. some (c ∷ more)) {b = bytes}
            (sym (render-plain c d rest args e) ∙ r) in
        let one = emit-IsEmitted str size word o (c ∷ []) in
        let (o2, goes_on, rest_emitted) =
          traverse-IsEmitted (d ∷ rest) args (emit str size (c ∷ []) o) {bytes = tail} w
            (IsEmitted-word (c ∷ []) one) two in
        (
          o2,
          traverse-plain c d rest args o e ∙ goes_on,
          subst (λ b. IsEmitted str size word o b o2) (eq_of_some all)
              (IsEmitted-append str size word (c ∷ []) tail one rest_emitted),
        )
  ]
