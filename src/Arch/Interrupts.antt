-- ===== src/Arch/Interrupts.antt =====
-- The handlers of newland/arch/x86/src/idt.c and newland/arch/x86/src/irq.c, and what they write
-- to the interrupt controllers. A handler is a function on the hardware and the registers'
-- numbers; only `int_no` of `regs_t` is read here, and a write or a read out of an array is a
-- fault.
use stardustos.Prelude.{
  List, Option, get_elem?, if◌then◌else◌, length, ltb, none, set, some, ℕ, ◌-◌, ◌>>=◌,
}
use stardustos.Arch.{Ports}
use stardustos.Arch.Gates.{IdtEntry, idt_table}

-- `isr_t` and `irq_t`, with NULL as `none`.
abbrev pub Handler : Type 0 → Type 0
Handler W = Option (ℕ → W → W)

-- `idt_handlers` and `irq_handlers`
pub record Handlers (W : Type 0) : Type 0 where
  pub idt_handlers : List (Handler W)
  pub irq_handlers : List (Handler W)

module _ {W : Type 0} where
  unfoldable pub register_int_handler : Handlers W → ℕ → Handler W → Option (Handlers W)
  register_int_handler s i handler =
      if ltb i (length s.idt_handlers)
      then some (record s { idt_handlers = set s.idt_handlers i handler })
      else none

  unfoldable pub register_irq_handler : Handlers W → ℕ → Handler W → Option (Handlers W)
  register_irq_handler s i handler =
      if ltb i (length s.irq_handlers)
      then some (record s { irq_handlers = set s.irq_handlers i handler })
      else none

  -- `if (handler != 0) handler(regs);`
  unfoldable pub call : Handler W → ℕ → W → W
  call none int_no w = w
  call (some handler) int_no w = handler int_no w

  module _ (p : Ports W) where
    unfoldable pub isr_handler : Handlers W → ℕ → W → Option W
    unfolding call
    isr_handler s int_no w =
        get_elem? s.idt_handlers int_no >>= λ handler. some (p.outb 32 32 (call handler int_no w))

    -- The second controller is acknowledged from vector 40 on, the first one always.
    unfoldable pub acknowledge : ℕ → W → W
    acknowledge int_no w = p.outb 32 32 (if ltb int_no 40 then w else p.outb 160 32 w)

    unfoldable pub irq_handler : Handlers W → ℕ → W → Option W
    unfolding call acknowledge
    irq_handler s int_no w =
        if ltb int_no 32
        then none
        else (get_elem? s.irq_handlers (int_no - 32) >>= λ handler.
            some (call handler int_no (acknowledge int_no w)))

    -- The bytes that `idt_init` sends to the controllers.
    unfoldable pub remap_pic : W → W
    remap_pic w =
        let w1 = p.outb 160 17 (p.outb 32 17 w) in
        let w2 = p.outb 161 40 (p.outb 33 32 w1) in
        let w3 = p.outb 161 2 (p.outb 33 4 w2) in
        let w4 = p.outb 161 1 (p.outb 33 1 w3) in p.outb 161 0 (p.outb 33 0 w4)

    -- `idt_init`, less the load of the table's address: the controllers and the table.
    unfoldable pub idt_init : (ℕ → ℕ) → (ℕ → ℕ) → W → (ℕ → IdtEntry) × W
    unfolding remap_pic
    idt_init isr irq w = (idt_table isr irq, remap_pic w)
