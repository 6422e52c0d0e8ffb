-- ===== src/Arch/Examples.antt =====
-- The tables and handlers of newland/arch/x86/src at concrete vectors; the hardware is the list
-- of the bytes that were sent to a port, the newest first.
use stardustos.Prelude.{
  List, [], arith, if◌then◌else◌, none, refl, replicate, some, ℕ, ◌%◌, ◌*◌, ◌+◌, ◌/◌, ◌<◌, ◌==◌,
  ◌^◌, ◌∷◌, ◌≡◌,
}
use stardustos.Arch.{Ports}
use stardustos.Arch.Gates.{IsGate, idt_table, idt_table-IsGate}
use stardustos.Arch.Interrupts.{
  Handler, Handlers, acknowledge, call, irq_handler, register_irq_handler,
}
use stardustos.Arch.Delivery.{irq_handler-register_irq_handler}
use stardustos.Arch.Clock.{timer_setfreq, timer_setfreq-divisor}

abbrev ports : Ports (List ℕ)
ports = record { outb = λ port v w. v ∷ w; inb = λ port w. (0, w) }

idt_table-IsGate_example : IsGate (idt_table (λ v. 4096 + v % 32) (λ n. 8192 + n % 32) 33) 8193
idt_table-IsGate_example =
    idt_table-IsGate (λ v. 4096 + v % 32) (λ n. 8192 + n % 32) 33 (λ j. omega arith)
      (λ j. omega arith) (omega arith)

abbrev no_handlers : Handlers (List ℕ)
no_handlers = record { idt_handlers = replicate 256 none; irq_handlers = replicate 16 none }

abbrev tick : Handler (List ℕ)
tick = some (λ int_no w. int_no ∷ w)

irq_handler-register_irq_handler_example :
    (s' : Handlers (List ℕ)) × (register_irq_handler no_handlers 8 tick ≡ some s')
    × (irq_handler ports s' (32 + 8) [] ≡ (
        if 8 == 8
        then some (call tick (32 + 8) (acknowledge ports (32 + 8) []))
        else irq_handler ports no_handlers (32 + 8) []))
irq_handler-register_irq_handler_example =
    irq_handler-register_irq_handler ports no_handlers 8 8 tick [] refl (omega arith)

timer_setfreq-divisor_example :
    (low : ℕ) × (high : ℕ) × (timer_setfreq ports 100 []
      ≡ some (ports.outb 64 high (ports.outb 64 low (ports.outb 67 54 []))))
    × (low < 2 ^ 8)
    × (high < 2 ^ 8)
    × (high * 2 ^ 8 + low ≡ 1193180 / 100)
timer_setfreq-divisor_example = timer_setfreq-divisor ports 100 [] (omega arith)
