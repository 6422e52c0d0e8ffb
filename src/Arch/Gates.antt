-- ===== src/Arch/Gates.antt =====
-- The tables of newland/arch/x86/src/idt.c and newland/arch/x86/src/gdt.c. The assembly stubs,
-- and the loads of the table registers, are left out: `isr` and `irq` are the addresses of the
-- stubs.
use stardustos.Prelude.{
  ==_iff, ==_refl, Bool-cases, arith, bit_and, bit_or, false, if◌then◌else◌, inl, inr, ltb, refl,
  subst, suc, sym, zero, ℕ, ◌%◌, ◌*◌, ◌+◌, ◌-◌, ◌/◌, ◌<◌, ◌==◌, ◌^◌, ◌∙◌, ◌≡◌, ◌≤◌, ◌⊎◌,
}

-- `idt_entry_t`
pub record IdtEntry : Type 0 where
  pub base_low : ℕ
  pub selector : ℕ
  pub always0 : ℕ
  pub flags : ℕ
  pub base_high : ℕ

abbrev pub zero_entry : IdtEntry
zero_entry = record { base_low = 0; selector = 0; always0 = 0; flags = 0; base_high = 0 }

-- A table is an entry to each index.
unfoldable pub idt_set_gate : (ℕ → IdtEntry) → ℕ → ℕ → ℕ → ℕ → ℕ → IdtEntry
idt_set_gate entries num base selector flags i =
    if i == num
    then record {
      base_low = base % 2 ^ 16;
      base_high = base / 2 ^ 16 % 2 ^ 16;
      selector = selector;
      always0 = 0;
      flags = bit_or flags 96;
    }
    else entries i

-- The calls for the vectors from `num` on, with the stub of each.
unfoldable pub set_gates : (ℕ → IdtEntry) → (ℕ → ℕ) → ℕ → ℕ → ℕ → IdtEntry
unfolding idt_set_gate
set_gates entries stub num zero = entries
set_gates entries stub num (suc n) =
    set_gates (idt_set_gate entries num (stub num) 8 142) stub (num + 1) n

-- The table of `idt_init`: the exceptions, then the IRQs from vector 32 on.
unfoldable pub idt_table : (ℕ → ℕ) → (ℕ → ℕ) → ℕ → IdtEntry
unfolding set_gates
idt_table isr irq = set_gates (set_gates (λ i. zero_entry) isr 0 32) (λ num. irq (num - 32)) 32 16

-- The address that the processor reads from an entry.
abbrev pub base_of : IdtEntry → ℕ
base_of e = e.base_high * 2 ^ 16 + e.base_low

-- `gdt_entry_t`
pub record GdtEntry : Type 0 where
  pub limit_low : ℕ
  pub base_low : ℕ
  pub base_middle : ℕ
  pub access : ℕ
  pub granularity : ℕ
  pub base_high : ℕ

unfoldable pub gdt_set_gate : (ℕ → GdtEntry) → ℕ → ℕ → ℕ → ℕ → ℕ → ℕ → GdtEntry
gdt_set_gate entries num base limit access gran i =
    if i == num
    then record {
      base_low = base % 2 ^ 16;
      base_middle = base / 2 ^ 16 % 2 ^ 8;
      base_high = base / 2 ^ 24 % 2 ^ 8;
      limit_low = limit % 2 ^ 16;
      granularity = bit_or (bit_and (limit / 2 ^ 16) 15) (bit_and gran 240);
      access = access;
    }
    else entries i

-- The six calls of `gdt_init`; `tss` is the address of the task state, of 104 bytes.
unfoldable pub gdt_table : (ℕ → GdtEntry) → ℕ → ℕ → GdtEntry
unfolding gdt_set_gate
gdt_table entries tss =
    let e0 = gdt_set_gate entries 0 0 0 0 0 in
    let e1 = gdt_set_gate e0 1 0 4294967295 154 207 in
    let e2 = gdt_set_gate e1 2 0 4294967295 146 207 in
    let e3 = gdt_set_gate e2 3 0 4294967295 250 207 in
    let e4 = gdt_set_gate e3 4 0 4294967295 242 207 in gdt_set_gate e4 5 tss 104 233 0

set_gates-below :
    (entries : ℕ → IdtEntry) (stub : ℕ → ℕ) (num n i : ℕ)
    → (i < num) ⊎ (num + n ≤ i)
    → set_gates entries stub num n i ≡ entries i
unfolding set_gates idt_set_gate
set_gates-below entries stub num zero i apart = refl
set_gates-below entries stub num (suc n) i apart =
    let next = idt_set_gate entries num (stub num) 8 142 in
    set_gates-below next stub (num + 1) n i (ground (arith, apart)) ∙ ground (arith, apart)

-- An entry that was set for an address.
pub record IsGate (e : IdtEntry) (address : ℕ) : Type 0 where
  pub base : base_of e ≡ address
  pub code_segment : e.selector ≡ 8
  pub reserved : e.always0 ≡ 0
  pub user : e.flags ≡ 238

idt_set_gate-IsGate :
    (entries : ℕ → IdtEntry) (num base : ℕ)
    → base < 2 ^ 32
    → IsGate (idt_set_gate entries num base 8 142 num) base
unfolding idt_set_gate
idt_set_gate-IsGate entries num base word =
    rw (==_refl num)
      (record { base = omega (arith, word); code_segment = refl; reserved = refl; user = refl })

set_gates-IsGate :
    (entries : ℕ → IdtEntry) (stub : ℕ → ℕ) (num n i : ℕ)
    → ((j : ℕ) → stub j < 2 ^ 32)
    → num ≤ i
    → i < num + n
    → IsGate (set_gates entries stub num n i) (stub i)
unfolding set_gates idt_set_gate
set_gates-IsGate entries stub num zero i word low high = absurd (omega arith)
set_gates-IsGate entries stub num (suc n) i word low high = elim (Bool-cases (i == num)) [
  | inl e ↦
      let next = idt_set_gate entries num (stub num) 8 142 in
      let here : IsGate (set_gates next stub (num + 1) n num) (stub num) =
        subst (λ x. IsGate x (stub num))
          (sym (set_gates-below next stub (num + 1) n num (inl (omega arith))))
          (idt_set_gate-IsGate entries num (stub num) (word num)) in
      subst (λ k. IsGate (set_gates next stub (num + 1) n k) (stub k)) (sym ((==_iff i num).0 e))
        here
  | inr e ↦
      set_gates-IsGate (idt_set_gate entries num (stub num) 8 142) stub (num + 1) n i word
        (ground arith) (omega arith)
]

-- The stub of a vector: the exceptions, then the IRQs from vector 32 on.
abbrev pub stub_of : (ℕ → ℕ) → (ℕ → ℕ) → ℕ → ℕ
stub_of isr irq v = if ltb v 32 then isr v else irq (v - 32)

-- Every vector under 48 has a gate for the stub of its exception, or from 32 on of its IRQ, with the
-- kernel's code segment; each may be called by user code.
pub idt_table-IsGate :
    (isr irq : ℕ → ℕ) (v : ℕ)
    → ((j : ℕ) → isr j < 2 ^ 32)
    → ((j : ℕ) → irq j < 2 ^ 32)
    → v < 48
    → IsGate (idt_table isr irq v) (stub_of isr irq v)
unfolding idt_table
idt_table-IsGate isr irq v isr_word irq_word under =
    let exceptions = set_gates (λ i. zero_entry) isr 0 32 in
    let stub : ℕ → ℕ = λ num. irq (num - 32) in
    elim (Bool-cases (ltb v 32)) [
      | inl e ↦ rw e (
          subst (λ g. IsGate g (isr v))
            (sym (set_gates-below exceptions stub 32 16 v (inl (ground arith))))
            (set_gates-IsGate (λ i. zero_entry) isr 0 32 v isr_word (omega arith) (ground arith)))
      | inr e ↦ rw e (
          set_gates-IsGate exceptions stub 32 16 v (λ j. irq_word (j - 32)) (ground arith)
            (omega arith))
    ]

-- From vector 48 on the table is zero.
pub idt_table-rest : (isr irq : ℕ → ℕ) (v : ℕ) → 48 ≤ v → idt_table isr irq v ≡ zero_entry
unfolding idt_table
idt_table-rest isr irq v from =
    set_gates-below (set_gates (λ i. zero_entry) isr 0 32) (λ num. irq (num - 32)) 32 16 v
      (inr from)
    ∙ set_gates-below (λ i. zero_entry) isr 0 32 v (inr (omega arith))

-- A descriptor gives back the base that it was set for, and no other is changed.
pub gdt_set_gate_lem :
    (entries : ℕ → GdtEntry) (num base limit access gran i : ℕ)
    → base < 2 ^ 32
    → let e = gdt_set_gate entries num base limit access gran in
      ((e num).base_high * 2 ^ 24 + (e num).base_middle * 2 ^ 16 + (e num).base_low ≡ base)
      × ((i == num) ≡ false → e i ≡ entries i)
unfolding gdt_set_gate
gdt_set_gate_lem entries num base limit access gran i word =
    (rw (==_refl num) (omega (arith, word)), λ other. rw other refl)
