-- ===== src/Log/Examples.antt =====
-- newland/src/log.c with a buffer of 1000 bytes at the address 4096, and without a terminal.
use stardustos.Libc.Memory.{set_up, memset, poke}
use stardustos.Prelude.{
  List, Option, [], arith, false, if◌then◌else◌, inl, none, refl, some, ℕ, ◌+◌, ◌-◌, ◌<◌, ◌==◌, ◌∷◌,
  ◌≡◌, ◌⊎◌,
}
use stardustos.Tty.{Tty, Ttys}
use stardustos.Libc.Formats.{directive, int_arg, put_signed, traverse, vsnprintf}
use stardustos.Libc.Strings.{strcpy}
use stardustos.Log.{Printed, print}
use stardustos.Log.Printing.{print_overruns}

abbrev no_floats : ℕ → List ℕ
no_floats _ = []

abbrev silent : Tty ℕ → ℕ → List ℕ → ℕ
silent tty w bytes = w

abbrev no_ttys : Ttys ℕ ℕ
no_ttys = record { devs = record { devices = []; dev_count = 0 }; ttys = []; tty_cnt = 0 }

-- "hi" stands at 32.
abbrev with_text : ℕ → ℕ
with_text a = if a == 32 then 104 else if a == 33 then 105 else 0

abbrev pos_of : Option (Printed ℕ) → Option ℕ
pos_of none = none
pos_of (some r) = some r.klog_pos

-- A message that does not fit goes to the front.
print_from_front :
    pos_of (print no_floats silent 4096 1000 9 no_ttys 5 with_text 990 0 32 2 false) ≡ some 17
unfolding print vsnprintf traverse directive int_arg put_signed strcpy poke memset set_up
print_from_front = refl

-- A message that ends with the buffer has its NUL 15 bytes behind it.
print_overruns_example :
    (r : Printed ℕ) × (print no_floats silent 4096 1000 9 no_ttys 5 with_text 983 0 32 2 false
      ≡ some r)
    × (r.wrote ≡ 2 + 15)
    × (r.klog_pos < 1000 + 1)
    × ((i : ℕ) → i < 2 → r.mem (4096 + (r.klog_pos - 2) + i) ≡ with_text (32 + i))
    × (r.mem (4096 + r.klog_pos + 15) ≡ 0)
    × ((a : ℕ)
        → (a < 4096) ⊎ (4096 + 1000 < a)
        → r.mem a ≡ (if a == 4096 + r.klog_pos + 15 then 0 else with_text a))
print_overruns_example =
    print_overruns no_floats silent 4096 1000 9 no_ttys 5 with_text 983 0 32 (104 ∷ 105 ∷ [])
      (omega arith) (omega arith) (omega arith)
      (refl, (λ e. absurd (omega (arith, e))), (refl, (λ e. absurd (omega (arith, e))), refl)) refl
      (inl (omega arith)) (omega arith) (omega arith)
