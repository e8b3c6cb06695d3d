-- ===== src/Idt.antt =====
-- interupts/idt.c and interupts/idt.h: the interrupt gates. The table is a function from its indices;
-- `isr n` is the address of the assembly stub isrN. `load_idt` is inline assembly and not modelled.
pub mod Decode
use my_os.Base.{ℕ, zero, suc, ◌+◌, ◌-◌, ◌*◌, ◌/◌, ◌%◌, ◌^◌, bit_and, bit_or}
use my_os.Base.Masks.{update}
use my_os.Gdt.{kernel_code_selector}

pub record IdtEntry : Type 0 where
  pub offset_low : ℕ
  pub selector : ℕ
  pub zero_byte : ℕ
  pub type_attr : ℕ
  pub offset_high : ℕ

pub record IdtPtr : Type 0 where
  pub limit : ℕ
  pub base : ℕ

abbrev pub idt_entries : ℕ
idt_entries = 256

-- IDT_PRESENT | IDT_DPL0 | IDT_INTERRUPT_GATE
abbrev pub idt_attr_kernel : ℕ
idt_attr_kernel = bit_or (bit_or 0x80 0x00) 0x0E

unfoldable pub idt_offset_low : ℕ → ℕ
idt_offset_low offset = bit_and offset 0xFFFF

unfoldable pub idt_offset_high : ℕ → ℕ
idt_offset_high offset = offset / 2 ^ 16

unfoldable pub idt_set_gate : (num base selector type_attr : ℕ) → (ℕ → IdtEntry) → ℕ → IdtEntry
unfolding idt_offset_low idt_offset_high
idt_set_gate num base selector type_attr idt = update idt num (record {
  offset_low = idt_offset_low base;
  selector = selector;
  zero_byte = 0;
  type_attr = type_attr;
  offset_high = idt_offset_high base;
})

-- The 34 calls of `init_idt_entries`, in order: `rounds` of them from number `n` on.
unfoldable pub set_gates : (rounds : ℕ) → ℕ → (isr : ℕ → ℕ) → (ℕ → IdtEntry) → ℕ → IdtEntry
set_gates zero n isr idt = idt
set_gates (suc r) n isr idt =
    set_gates r (n + 1) isr (idt_set_gate n (isr n) kernel_code_selector idt_attr_kernel idt)

unfoldable pub init_idt_entries : (isr : ℕ → ℕ) → (ℕ → IdtEntry) → ℕ → IdtEntry
init_idt_entries isr idt = set_gates 34 0 isr idt

-- An entry has 8 bytes; `address` is where the table stands.
unfoldable pub init_idt_ptr : (address : ℕ) → IdtPtr
init_idt_ptr address = record { limit = idt_entries * 8 - 1; base = address }

-- The number is passed on as a byte.
unfoldable pub idt_irq_install_handler : (irq handler : ℕ) → (ℕ → IdtEntry) → ℕ → IdtEntry
idt_irq_install_handler irq handler idt =
    idt_set_gate (irq % 256) handler kernel_code_selector idt_attr_kernel idt
