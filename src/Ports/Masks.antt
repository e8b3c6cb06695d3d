-- ===== src/Ports/Masks.antt =====
-- Which interrupts the controllers let through.
use my_os.Base.{
  ℕ, ◌-◌, ◌<◌, ◌≡◌, arith, Bool, true, none, some, ltb, ◌==◌, if◌then◌else◌, refl, ◌||◌, ◌⊎◌, ◌≤◌,
  Bool-cases, inl, inr,
}
use my_os.Base.Bits.{bit}
use my_os.Base.Masks.{clear_bit, bit-clear, clear-byte}
use my_os.Io.{Ports}
use my_os.Ports.Pic.{unmask_irq}

abbrev is_data_port : ℕ → Bool
is_data_port port = (port == 0x21) || (port == 0xA1)

-- The mask registers of the two controllers hold bytes: a read of a data port returns its register,
-- and a write of a byte sets it and not the other one.
pub record HasMasks {S : Type 0} (io : Ports S) (register : S → ℕ → ℕ) : Type 0 where
  pub byte : (s : S) (port : ℕ) → register s port < 256
  pub reads : (s : S) (port : ℕ) → is_data_port port ≡ true → io.inb port s ≡ (register s port, s)
  pub writes :
      (s : S) (port value q : ℕ)
      → is_data_port port ≡ true
      → value < 256
      → register (io.outb port value s) q ≡ (if port == q then value else register s q)

-- 1 where the controllers hold interrupt `irq` back.
unfoldable pub masked : (registers : ℕ → ℕ) → ℕ → ℕ
masked registers irq =
    if ltb irq 8 then bit (registers 0x21) irq else bit (registers 0xA1) (irq - 8)

-- On controllers with mask registers, `unmask_irq` of a number below 16 lets exactly that interrupt
-- through besides; a number of 16 or more fails the assertion.
pub unmask_irq-unmasks :
    {S : Type 0}
    → (io : Ports S) (register : S → ℕ → ℕ) (h : HasMasks io register) (irq : ℕ) (s : S)
    → ((irq < 16)
        × (s' : S) × (unmask_irq io irq s ≡ some s')
        × ((k : ℕ)
            → k < 16
            → masked (register s') k ≡ (if irq == k then 0 else masked (register s) k)))
      ⊎ ((16 ≤ irq) × (unmask_irq io irq s ≡ none))
unfolding unmask_irq masked
unmask_irq-unmasks {S} io register h irq s = elim (Bool-cases (ltb irq 16)) [
  | inr high ↦ inr (ground arith, ground arith)
  | inl low ↦ elim (Bool-cases (ltb irq 8)) [
    | inl master ↦
        let v : ℕ = clear_bit (register s 0x21) irq in
        inl (
          ground arith,
          io.outb 0x21 v s,
          ground (arith, h.reads s 0x21 refl),
          λ k lt. ground (
            arith,
            h.writes s 0x21 v 0x21 refl (clear-byte (register s 0x21) irq),
            h.writes s 0x21 v 0xA1 refl (clear-byte (register s 0x21) irq),
            bit-clear (register s 0x21) irq k (h.byte s 0x21),
          ),
        )
    | inr slave ↦
        let v : ℕ = clear_bit (register s 0xA1) (irq - 8) in
        inl (
          ground arith,
          io.outb 0xA1 v s,
          ground (arith, h.reads s 0xA1 refl),
          λ k lt. ground (
            arith,
            h.writes s 0xA1 v 0x21 refl (clear-byte (register s 0xA1) (irq - 8)),
            h.writes s 0xA1 v 0xA1 refl (clear-byte (register s 0xA1) (irq - 8)),
            bit-clear (register s 0xA1) (irq - 8) (k - 8) (h.byte s 0xA1),
          ),
        )
  ]
]
