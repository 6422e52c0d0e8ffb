-- ===== src/Arch/Delivery.antt =====
-- How an interrupt reaches its handler in newland/arch/x86/src/idt.c and
-- newland/arch/x86/src/irq.c.
use stardustos.Prelude.{
  Bool-cases, List, [], arith, false, get_elem?, if◌then◌else◌, inl, inr, length, ltb, refl, set,
  some, suc, sym, true, zero, ℕ, ◌+◌, ◌-◌, ◌<◌, ◌==◌, ◌>>=◌, ◌∙◌, ◌∷◌, ◌≡◌,
}
use stardustos.Arch.{Ports}
use stardustos.Arch.Interrupts.{
  Handler, Handlers, acknowledge, call, irq_handler, register_irq_handler,
}

get_elem?-set :
    {A : Type 0} (xs : List A) (i j : ℕ) (v : A)
    → i < length xs
    → get_elem? (set xs i v) j ≡ (if i == j then some v else get_elem? xs j)
get_elem?-set [] i j v h = absurd (omega arith)
get_elem?-set (x ∷ xs) zero zero v h = refl
get_elem?-set (x ∷ xs) zero (suc j) v h = ground arith
get_elem?-set (x ∷ xs) (suc i) zero v h = ground arith
get_elem?-set (x ∷ xs) (suc i) (suc j) v h = get_elem?-set xs i j v (omega arith) ∙ ground arith

irq_handler-back :
    {W : Type 0} (p : Ports W) (s : Handlers W) (j : ℕ) (w : W)
    → irq_handler p s (32 + j) w ≡ (
        get_elem? s.irq_handlers j >>= λ handler.
        some (call handler (32 + j) (acknowledge p (32 + j) w)))
unfolding irq_handler
irq_handler-back p s j w =
    let back : 32 + j - 32 ≡ j = omega arith in
    let above : ltb (32 + j) 32 ≡ false = ground arith in rw (above, back) refl

module _ {W : Type 0} (p : Ports W) where
  -- With 16 entries, the handler that was registered for an IRQ is the one that vector 32 + IRQ runs,
  -- after the controllers have been acknowledged; every other IRQ does what it did.
  pub irq_handler-register_irq_handler :
      (s : Handlers W) (i j : ℕ) (handler : Handler W) (w : W)
      → length s.irq_handlers ≡ 16
      → i < 16
      → (s' : Handlers W) × (register_irq_handler s i handler ≡ some s')
        × (irq_handler p s' (32 + j) w ≡ (
            if i == j
            then some (call handler (32 + j) (acknowledge p (32 + j) w))
            else irq_handler p s (32 + j) w))
  unfolding register_irq_handler irq_handler
  irq_handler-register_irq_handler s i j handler w all small =
      let known : ltb i (length s.irq_handlers) ≡ true = ground arith in
      (
        record s { irq_handlers = set s.irq_handlers i handler },
        rw known refl,
        irq_handler-back p (record s { irq_handlers = set s.irq_handlers i handler }) j w
            ∙ rw (get_elem?-set s.irq_handlers i j handler (omega (arith, all, small)))
                (elim (Bool-cases (i == j)) [
                  | inl e ↦ rw (e) refl
                  | inr e ↦ rw (e) (sym (irq_handler-back p s j w))
                ]),
      )
