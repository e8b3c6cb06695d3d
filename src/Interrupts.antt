-- ===== src/Interrupts.antt =====
-- interupts/interupts_handler.c: which handler an interrupt reaches.
pub mod Dispatch
pub mod Handlers
use my_os.Base.{ℕ, ltb, ◌==◌, if◌then◌else◌}

-- What the assembly stub and the processor push.
pub record Registers : Type 0 where
  pub edi : ℕ
  pub esi : ℕ
  pub ebp : ℕ
  pub esp : ℕ
  pub ebx : ℕ
  pub edx : ℕ
  pub ecx : ℕ
  pub eax : ℕ
  pub int_no : ℕ
  pub err_code : ℕ
  pub eip : ℕ
  pub cs : ℕ
  pub eflags : ℕ
  pub useresp : ℕ
  pub ss : ℕ

abbrev pub pit_isr : ℕ
pit_isr = 32

abbrev pub keyboard_isr : ℕ
keyboard_isr = 33

abbrev pub page_fault_isr : ℕ
page_fault_isr = 14

abbrev pub cpu_exceptions : ℕ
cpu_exceptions = 32

-- The call that `isr_handler` makes: keyboard_handler, page_fault_handler, pit_handler, cpu_handler,
-- which reads the message of its number, or the message for an unknown interrupt.
pub data Handler : Type 0 where
  keyboard : Handler
  page_fault : (err_code : ℕ) → Handler
  timer : Handler
  exception : (int_no : ℕ) → Handler
  unknown : Handler

unfoldable pub isr_handler : Registers → Handler
isr_handler regs =
    if regs.int_no == keyboard_isr
    then keyboard
    else if regs.int_no == page_fault_isr
    then page_fault regs.err_code
    else if regs.int_no == pit_isr
    then timer
    else if ltb regs.int_no cpu_exceptions
    then exception regs.int_no
    else unknown
