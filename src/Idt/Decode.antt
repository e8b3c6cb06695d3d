-- ===== src/Idt/Decode.antt =====
-- What the processor reads back from a gate.
use my_os.Base.{
  ℕ, zero, suc, ◌+◌, ◌*◌, ◌/◌, ◌%◌, ◌^◌, ◌<◌, ◌≤◌, ◌≡◌, refl, sym, false, bit_and, arith, ltb, leb,
  ◌&&◌, ◌==◌, if◌then◌else◌,
}
use my_os.Base.Align.{bit_and-mod}
use mathlib.Core.Path.{subst}
use my_os.Base.Masks.{update}
use my_os.Idt.{IdtEntry, idt_set_gate, set_gates, init_idt_entries, idt_irq_install_handler}

-- The kernel's interrupt gate for a handler at `address`: what the processor jumps to, the kernel's
-- code segment, a present 32-bit interrupt gate of privilege level 0.
pub record IsKernelGate (e : IdtEntry) (address : ℕ) : Type 0 where
  pub offset : e.offset_low + e.offset_high * 2 ^ 16 ≡ address
  pub segment : e.selector ≡ 0x10
  pub reserved : e.zero_byte ≡ 0
  pub attributes : e.type_attr ≡ 0x8E

gate : ℕ → IdtEntry
gate base = record {
  offset_low = bit_and base 0xFFFF;
  selector = 0x10;
  zero_byte = 0;
  type_attr = 0x8E;
  offset_high = base / 2 ^ 16;
}

gate-IsKernelGate : (base : ℕ) → IsKernelGate (gate base) base
unfolding gate
gate-IsKernelGate base = record {
  offset = omega (arith, bit_and-mod 16 base);
  segment = refl;
  reserved = refl;
  attributes = refl;
}

set_gates-eq :
    (r n : ℕ) (isr : ℕ → ℕ) (idt : ℕ → IdtEntry) (k : ℕ)
    → set_gates r n isr idt k ≡ (if leb n k && ltb k (n + r) then gate (isr k) else idt k)
unfolding set_gates idt_set_gate gate
set_gates-eq zero n isr idt k = ground arith
set_gates-eq (suc r) n isr idt k =
    ground (arith, set_gates-eq r (n + 1) isr (idt_set_gate n (isr n) 0x10 0x8E idt) k)

-- After `init_idt_entries` the gates 0 to 33 lead to their stubs through the kernel's code segment,
-- and every later gate is as before.
pub init_idt_entries-IsKernelGate :
    (isr : ℕ → ℕ) (idt : ℕ → IdtEntry) (k : ℕ)
    → ((k < 34) → IsKernelGate (init_idt_entries isr idt k) (isr k))
      × ((34 ≤ k) → init_idt_entries isr idt k ≡ idt k)
unfolding init_idt_entries
init_idt_entries-IsKernelGate isr idt k =
    let inside : (k < 34) → set_gates 34 0 isr idt k ≡ gate (isr k) =
      λ b. ground (arith, set_gates-eq 34 0 isr idt k) in
    (
      (λ b. subst (λ e. IsKernelGate e (isr k)) (sym (inside b)) (gate-IsKernelGate (isr k))),
      λ b. ground (arith, set_gates-eq 34 0 isr idt k),
    )

-- Installing a handler for an interrupt number below 256 makes its gate lead there, changes no other
-- gate, and the handler installed last is the one that counts.
pub idt_irq_install_handler-last :
    (irq old new : ℕ) (idt : ℕ → IdtEntry)
    → irq < 256
    → IsKernelGate (idt_irq_install_handler irq new (idt_irq_install_handler irq old idt) irq) new
      × ((k : ℕ)
          → (irq == k) ≡ false
          → idt_irq_install_handler irq new (idt_irq_install_handler irq old idt) k ≡ idt k)
unfolding idt_irq_install_handler idt_set_gate gate
idt_irq_install_handler-last irq old new idt b =
    let e : irq % 256 ≡ irq = omega arith in
    let at : update (idt_set_gate (irq % 256) old 0x10 0x8E idt) (irq % 256) (gate new) irq
        ≡ gate new =
      ground arith in
    (subst (λ g. IsKernelGate g new) (sym at) (gate-IsKernelGate new), λ k ne. ground arith)
