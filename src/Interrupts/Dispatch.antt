-- ===== src/Interrupts/Dispatch.antt =====
-- Every gate has a handler, and every message that is read is there.
use my_os.Base.{ℕ, ◌<◌, ◌≡◌, arith, Bool, true, false, ltb}
use my_os.Interrupts.{Registers, Handler, exception, unknown, isr_handler}

abbrev pub is_known : Handler → Bool
is_known unknown = false
is_known _ = true

-- The number whose message `cpu_handler` reads, 0 for the other handlers.
abbrev pub message_of : Handler → ℕ
message_of (exception int_no) = int_no
message_of _ = 0

-- The interrupts of the 34 gates are known to `isr_handler`, those above are not, and the index of a
-- message is below the 32 that there are.
pub isr_handler-is_known :
    (regs : Registers)
    → (is_known (isr_handler regs) ≡ ltb regs.int_no 34) × (message_of (isr_handler regs) < 32)
unfolding isr_handler
isr_handler-is_known regs = (ground arith, ground arith)
