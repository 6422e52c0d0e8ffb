-- ===== src/Arch/Clock.antt =====
-- newland/arch/x86/src/timer.c and newland/arch/x86/src/clock.c: the divisor of the timer, and
-- the date that is read from the CMOS.
use stardustos.Prelude.{
  Bool, Option, arith, bit_and, false, if◌then◌else◌, leb, none, not, refl, some, suc, zero, ℕ, ◌%◌,
  ◌*◌, ◌+◌, ◌/◌, ◌<◌, ◌==◌, ◌>>=◌, ◌^◌, ◌||◌, ◌≡◌, ◌≤◌,
}
use native.Mathlib.Nat.{div-le_of_le-mul, mul-le-mul_right}
use stardustos.Arch.{Ports}
use stardustos.Time.{Datetime}

module _ {W : Type 0} (p : Ports W) where
  -- A division by zero is a fault.
  unfoldable pub timer_setfreq : ℕ → W → Option W
  timer_setfreq freq w =
      let div = 1193180 / freq in
      if freq == 0
      then none
      else some (p.outb 64 (div / 2 ^ 8 % 2 ^ 8) (p.outb 64 (div % 2 ^ 8) (p.outb 67 54 w)))

  unfoldable pub is_cmos_update : W → Bool × W
  is_cmos_update w = let r = p.inb 113 (p.outb 112 10 w) in (not (bit_and r.0 128 == 0), r.1)

  -- `cmos_wait()`: the rounds that the clock is busy are the fuel.
  unfoldable pub cmos_wait : ℕ → W → Option W
  unfolding is_cmos_update
  cmos_wait zero w = none
  cmos_wait (suc fuel) w =
      let busy = is_cmos_update w in
      let rest = cmos_wait fuel busy.1 in if busy.0 then rest else some busy.1

  unfoldable pub get_realtime_reg : ℕ → W → ℕ × W
  get_realtime_reg reg w = p.inb 113 (p.outb 112 reg w)

  -- `from_bcd(get_realtime_reg(reg))`: the macro reads the register twice, for the tens and for the
  -- units. `none` is a byte from 0x80 on, which the signed `char` makes negative.
  unfoldable pub from_bcd : ℕ → W → Option (ℕ × W)
  unfolding get_realtime_reg
  from_bcd reg w =
      let tens = get_realtime_reg reg w in
      let units = get_realtime_reg reg tens.1 in
      if leb 128 tens.0 || leb 128 units.0
      then none
      else some (tens.0 / 16 * 10 + bit_and units.0 15, units.1)

  unfoldable pub arch_clock : ℕ → W → Option (Datetime × W)
  unfolding cmos_wait from_bcd
  arch_clock fuel w = do
    w0 ← cmos_wait fuel w
    s ← from_bcd 0 w0
    m ← from_bcd 2 s.1
    h ← from_bcd 4 m.1
    d ← from_bcd 7 h.1
    n ← from_bcd 8 d.1
    y ← from_bcd 9 n.1
    some (record { yr = y.0; mon = n.0; day = d.0; hr = h.0; min = m.0; sec = s.0 }, y.1)

  -- From 19 interrupts a second on, the two bytes that go to the timer are those of the divisor.
  pub timer_setfreq-divisor :
      (freq : ℕ) (w : W)
      → 19 ≤ freq
      → let div = 1193180 / freq in
        (low : ℕ) × (high : ℕ) × (timer_setfreq freq w
          ≡ some (p.outb 64 high (p.outb 64 low (p.outb 67 54 w))))
        × (low < 2 ^ 8)
        × (high < 2 ^ 8)
        × (high * 2 ^ 8 + low ≡ div)
  unfolding timer_setfreq
  timer_setfreq-divisor freq w fast =
      let div = 1193180 / freq in
      let scaled = mul-le-mul_right {m = 19} {n = freq} 62799 fast in
      let quotient = div-le_of_le-mul freq {m = 1193180} {n = 62799} (omega (arith, scaled)) in
      let small : 1193180 / freq < 2 ^ 16 = omega (arith, quotient) in
      let some_freq : (freq == 0) ≡ false = ground arith in
      (
        div % 2 ^ 8,
        div / 2 ^ 8 % 2 ^ 8,
        rw some_freq refl,
        omega arith,
        omega arith,
        omega (arith, small),
      )
