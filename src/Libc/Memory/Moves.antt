-- ===== src/Libc/Memory/Moves.antt =====
-- What the block routines of libraries/libc/src/string leave at every address.
use stardustos.Prelude.{
  Bool, Bool-cases, ap, arith, if◌then◌else◌, inl, inr, leb, ltb, refl, suc, sym, zero, ℕ, ◌%◌,
  ◌&&◌, ◌+◌, ◌-◌, ◌<◌, ◌^◌, ◌↔◌, ◌∙◌, ◌≡◌, ◌≤◌, ◌⊎◌,
}
use stardustos.Libc.Memory.{copy_down, copy_up, memcmp, memcpy, memmove, memset, poke, set_up}

-- Whether an address lies in the block of `size` bytes at `ptr`.
abbrev pub within : ℕ → ℕ → ℕ → Bool
within ptr size a = leb ptr a && ltb a (ptr + size)

copy_up-lem :
    (m : ℕ → ℕ) (dst src i n a : ℕ)
    → (dst ≤ src) ⊎ (src + (i + n) ≤ dst)
    → copy_up m dst src i n a ≡ (if within (dst + i) n a then m (src + (a - dst)) else m a)
unfolding copy_up poke
copy_up-lem m dst src i zero a apart = ground arith
copy_up-lem m dst src i (suc n) a apart =
    let rest = copy_up-lem (poke m (dst + i) (m (src + i))) dst src (i + 1) n a (ground arith) in
    ground (arith, rest)

copy_down-lem :
    (m : ℕ → ℕ) (dst src i a : ℕ)
    → src ≤ dst
    → copy_down m dst src i a ≡ (if within dst i a then m (src + (a - dst)) else m a)
unfolding copy_down poke
copy_down-lem m dst src zero a le = ground arith
copy_down-lem m dst src (suc i) a le =
    let rest = copy_down-lem (poke m (dst + i) (m (src + i))) dst src i a le in ground (arith, rest)

-- `memmove` moves the block as it was, however the two blocks overlap, and changes nothing else.
pub memmove_lem :
    (m : ℕ → ℕ) (dst src size a : ℕ)
    → memmove m dst src size a ≡ (if within dst size a then m (src + (a - dst)) else m a)
unfolding memmove
memmove_lem m dst src size a = elim (Bool-cases (ltb dst src)) [
  | inl up ↦ ground (arith, up, copy_up-lem m dst src 0 size a (inl (ground arith)))
  | inr down ↦ ground (arith, down, copy_down-lem m dst src size a (ground arith))
]

-- Where the blocks are apart, or the target begins first, `memcpy` is `memmove`.
pub memcpy-memmove :
    (m : ℕ → ℕ) (dst src size a : ℕ)
    → (dst ≤ src) ⊎ (src + size ≤ dst)
    → memcpy m dst src size a ≡ memmove m dst src size a
unfolding memcpy
memcpy-memmove m dst src size a apart =
    let copied = copy_up-lem m dst src 0 size a (ground arith) in
    ground (arith, copied, memmove_lem m dst src size a)

set_up-lem :
    (m : ℕ → ℕ) (ptr val i n a : ℕ)
    → set_up m ptr val i n a ≡ (if within (ptr + i) n a then val % 2 ^ 8 else m a)
unfolding set_up poke
set_up-lem m ptr val i zero a = ground arith
set_up-lem m ptr val i (suc n) a =
    let rest = set_up-lem (poke m (ptr + i) (val % 2 ^ 8)) ptr val (i + 1) n a in
    ground (arith, rest)

-- `memset` writes the low byte of its value over the block, and nothing else.
pub memset_lem :
    (m : ℕ → ℕ) (ptr val size a : ℕ)
    → memset m ptr val size a ≡ (if within ptr size a then val % 2 ^ 8 else m a)
unfolding memset
memset_lem m ptr val size a = ground (arith, set_up-lem m ptr val 0 size a)

-- `memcmp` gives 0 just where the two blocks hold the same bytes.
pub memcmp_lem :
    (m : ℕ → ℕ) (p1 p2 n : ℕ)
    → ((a : ℕ) → m a < 2 ^ 8)
    → (memcmp m p1 p2 n ≡ 0) ↔ ((i : ℕ) → i < n → m (p1 + i) ≡ m (p2 + i))
unfolding memcmp
memcmp_lem m p1 p2 zero bytes = (λ e i h. absurd (omega arith), λ h. refl)
memcmp_lem m p1 p2 (suc n) bytes =
    let (only, if_same) = memcmp_lem m (p1 + 1) (p2 + 1) n bytes in
    let b1 = bytes p1 in
    let b2 = bytes p2 in
    let plus_zero : (p : ℕ) → p + 0 ≡ p = λ p. omega arith in
    let step : (p i : ℕ) → p + suc i ≡ p + 1 + i = λ p i. omega arith in
    (
      λ e.
          let head : m p1 ≡ m p2 = ground arith in
          let tail : memcmp m (p1 + 1) (p2 + 1) n ≡ 0 = ground arith in
          elim [
            | zero ↦ λ h. ap m (plus_zero p1) ∙ head ∙ sym (ap m (plus_zero p2))
            | suc i ↦ λ h. ap m (step p1 i) ∙ only tail i (omega arith) ∙ sym (ap m (step p2 i))
          ],
      λ same.
          let head : m p1 ≡ m p2 =
            sym (ap m (plus_zero p1)) ∙ same 0 (omega arith) ∙ ap m (plus_zero p2) in
          let tail : memcmp m (p1 + 1) (p2 + 1) n ≡ 0 =
            if_same
              (λ i h. sym (ap m (step p1 i)) ∙ same (suc i) (omega arith) ∙ ap m (step p2 i)) in
          ground (arith, head, tail),
    )
