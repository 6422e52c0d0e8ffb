-- ===== src/Phys/Bits.antt =====
-- The bits of one byte of the page map in newland/arch/x86/src/mem.c.
use stardustos.Prelude.{
  Bool, arith, holds_below, holds_below-at, if◌then◌else◌, ltb, not, refl, true, ℕ, ◌&&◌, ◌<◌, ◌==◌,
  ◌||◌, ◌≡◌,
}
use stardustos.Phys.{clear_bit, set_bit, test_bit}

abbrev agree : Bool → Bool → Bool
agree a b = if a then b else not b

agree→eq : (a b : Bool) → agree a b ≡ true → a ≡ b
agree→eq a b h = ground arith

-- A test over every byte and two bit numbers.
bytes_table : (ℕ → ℕ → ℕ → Bool) → Bool
bytes_table p = holds_below (λ b. holds_below (λ k. holds_below (p b k) 8) 8) 256

bytes_table_sound :
    (p : ℕ → ℕ → ℕ → Bool) (b k j : ℕ)
    → bytes_table p ≡ true
    → b < 256
    → k < 8
    → j < 8
    → p b k j ≡ true
unfolding bytes_table
bytes_table_sound p b k j t hb hk hj = holds_below-at (p b k) 8 hj (
    holds_below-at (λ k'. holds_below (p b k') 8) 8 hk
      (holds_below-at (λ b'. holds_below (λ k'. holds_below (p b' k') 8) 8) 256 hb t))

set_table : bytes_table (λ b k j. agree (test_bit (set_bit b k) j) (k == j || test_bit b j)) ≡ true
unfolding bytes_table holds_below test_bit set_bit
set_table = refl

clear_table :
    bytes_table (λ b k j. agree (test_bit (clear_bit b k) j) (not (k == j) && test_bit b j)) ≡ true
unfolding bytes_table holds_below test_bit clear_bit
clear_table = refl

range_table : bytes_table (λ b k j. ltb (set_bit b k) 256 && ltb (clear_bit b k) 256) ≡ true
unfolding bytes_table holds_below set_bit clear_bit
range_table = refl

module _ (b k j : ℕ) (hb : b < 256) (hk : k < 8) (hj : j < 8) where
  pub test_bit-set_bit : test_bit (set_bit b k) j ≡ (k == j || test_bit b j)
  test_bit-set_bit = agree→eq _ _ (
      bytes_table_sound (λ b k j. agree (test_bit (set_bit b k) j) (k == j || test_bit b j)) b k j
        set_table hb hk hj)

  pub test_bit-clear_bit : test_bit (clear_bit b k) j ≡ (not (k == j) && test_bit b j)
  test_bit-clear_bit = agree→eq _ _ (
      bytes_table_sound (λ b k j. agree (test_bit (clear_bit b k) j) (not (k == j) && test_bit b j))
        b k j clear_table hb hk hj)

pub bits_range : (b k : ℕ) → b < 256 → k < 8 → (set_bit b k < 256) × (clear_bit b k < 256)
bits_range b k hb hk =
    let t =
      bytes_table_sound (λ b k j. ltb (set_bit b k) 256 && ltb (clear_bit b k) 256) b k 0
        range_table hb hk (omega arith) in
    (ground arith, ground arith)
