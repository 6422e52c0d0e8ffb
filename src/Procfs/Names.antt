-- ===== src/Procfs/Names.antt =====
-- The names that newland/src/fs/procfs.c gives to numbers with
-- libraries/libc/src/stdio/vsnprintf.c.
use stardustos.Prelude.{
  Bool-cases, List, [], ap, arith, inl, inr, length, ltb, refl, some, suc, sym, true, zero, ℕ, ◌%◌,
  ◌++◌, ◌+◌, ◌-◌, ◌/◌, ◌<◌, ◌==◌, ◌^◌, ◌∙◌, ◌∷◌, ◌≡◌,
}
use stardustos.Libc.Formats.{directive, emit, long, long_arg, traverse, vsnprintf, write_bytes}
use stardustos.Libc.Formats.Render.{decimal, digits-decimal}
use stardustos.Libc.Memory.{poke}
use stardustos.Libc.Formats.Written.{write_bytes-append}
use stardustos.Procfs.{number_name}

length-append_one : (xs : List ℕ) (x : ℕ) → length (xs ++ (x ∷ [])) ≡ length xs + 1
length-append_one [] x = refl
length-append_one (y ∷ xs) x = omega (arith, length-append_one xs x)

length-decimal : (fuel n : ℕ) → length (decimal fuel n) < fuel + 1
unfolding decimal
length-decimal zero n = omega arith
length-decimal (suc fuel) n = elim (Bool-cases (n / 10 == 0)) [
  | inl last ↦ rw last (omega arith)
  | inr more ↦
      rw (more, length-append_one (decimal fuel (n / 10)) (48 + n % 10))
        (omega (arith, length-decimal fuel (n / 10)))
]

number_name-decimal : (id : ℕ) → id < 2 ^ 32 → number_name id ≡ some (decimal 33 id ++ (b'u' ∷ []))
unfolding number_name
number_name-decimal id small = rw (digits-decimal id small) refl

-- A number of 32 bits has a name, which a node has room for.
pub number_name_lem :
    (id : ℕ) → id < 2 ^ 32 → (name : List ℕ) × (number_name id ≡ some name) × (length name < 35)
number_name_lem id small = (
  decimal 33 id ++ (b'u' ∷ []),
  number_name-decimal id small,
  rw (length-append_one (decimal 33 id) b'u') (omega (arith, length-decimal 33 id)),
)

-- What `snprintf` of a number of 32 bits with `%lu` leaves in memory is its name with a NUL.
pub vsnprintf-number_name :
    {D : Type 0} (ftoa : D → List ℕ) (str : ℕ) (m : ℕ → ℕ) (id : ℕ) (name : List ℕ)
    → id < 2 ^ 32
    → number_name id ≡ some name
    → vsnprintf ftoa str 128 m (b'%' ∷ b'l' ∷ b'u' ∷ []) (long id ∷ [])
      ≡ some (length name - 1, poke (write_bytes m str name) (str + length name) 0)
unfolding vsnprintf number_name traverse directive emit long_arg
vsnprintf-number_name ftoa str m id name small named =
    let d = decimal 33 id in
    let few = length-decimal 33 id in
    let both : some (d ++ (b'u' ∷ [])) ≡ some name = sym (number_name-decimal id small) ∙ named in
    let is_name : d ++ (b'u' ∷ []) ≡ name = cc in
    let size = length-append_one d b'u' in
    let counted : (0 + length d) % 2 ^ 32 ≡ length d = omega arith in
    let room : ltb (length d) 128 ≡ true = ground arith in
    let number : ((length d + 1) % 2 ^ 32 + 2 ^ 32 - 1) % 2 ^ 32 ≡ length name - 1 =
      omega (arith, ap length is_name) in
    let end : str + (length d + 1) % 2 ^ 32 ≡ str + length name =
      omega (arith, ap length is_name) in
    let start : str + 0 ≡ str = omega arith in
    let mem : poke (write_bytes m (str + 0) d) (str + length d) b'u' ≡ write_bytes m str name =
      (λ i. poke (write_bytes m (start i) d) (str + length d) b'u')
      ∙ sym (write_bytes-append m str d (b'u' ∷ []))
      ∙ (λ i. write_bytes m str (is_name i)) in
    rw (digits-decimal id small, counted, room) (λ i. some (number i, poke (mem i) (end i) 0))
