-- ===== src/Arch.antt =====
-- The processor's side of newland/arch/x86/src: descriptor tables, interrupts, timer and clock.
-- `W` is the hardware behind the ports (newland/arch/x86/include/newland/arch/io.h).
use stardustos.Prelude.{ℕ}
pub mod Gates
pub mod Interrupts
pub mod Delivery
pub mod Clock
pub mod Examples

pub record Ports (W : Type 0) : Type 0 where
  pub outb : ℕ → ℕ → W → W
  pub inb : ℕ → W → ℕ × W
