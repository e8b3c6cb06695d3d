-- ===== src/Interrupts/Handlers.antt =====
-- The handlers behind interupts/interupts_handler.c, drivers/keyboard.c and drivers/pit.c.
pub mod Ack
use my_os.Base.{ℕ, Option, none, some, List, [], ◌∷◌, get_elem?}
use my_os.Io.{Ports}
use my_os.Screen.{Screen, put_char, put_string}
use my_os.Std.Stdlib.{int_to_string}
use my_os.Std.Stdio.Printf.{codes, put_buffer}
use my_os.Keyboard.{Keyboard, handle_scancode}
use my_os.Processes.Scheduler.{Scheduler, scheduler_handle_tick}
use my_os.Ports.Pic.{pic_send_ack}
use my_os.Interrupts.{Registers}

abbrev pub exception_messages : List (List ℕ)
exception_messages =
    codes "Division By Zero"
    ∷ codes "Debug"
    ∷ codes "Non Maskable Interrupt"
    ∷ codes "Breakpoint"
    ∷ codes "Into Detected Overflow"
    ∷ codes "Out of Bounds"
    ∷ codes "Invalid Opcode"
    ∷ codes "No Coprocessor"
    ∷ codes "Double Fault"
    ∷ codes "Coprocessor Segment Overrun"
    ∷ codes "Bad TSS"
    ∷ codes "Segment Not Present"
    ∷ codes "Stack Fault"
    ∷ codes "General Protection Fault"
    ∷ codes "Page Fault"
    ∷ codes "Unknown Interrupt"
    ∷ codes "Coprocessor Fault"
    ∷ codes "Alignment Check"
    ∷ codes "Machine Check"
    ∷ codes "Reserved"
    ∷ codes "Reserved"
    ∷ codes "Reserved"
    ∷ codes "Reserved"
    ∷ codes "Reserved"
    ∷ codes "Reserved"
    ∷ codes "Reserved"
    ∷ codes "Reserved"
    ∷ codes "Reserved"
    ∷ codes "Reserved"
    ∷ codes "Reserved"
    ∷ codes "Reserved"
    ∷ codes "Reserved"
    ∷ []

-- The screen when the machine halts; `buffer` is what the local array holds at first. `none` is a read
-- past the messages, or the undefined behaviour of int_to_string.
unfoldable pub cpu_handler : (buffer : ℕ → ℕ) → Registers → Screen → Option Screen
unfolding int_to_string put_buffer
cpu_handler buffer regs s = elim (get_elem? exception_messages regs.int_no) [
  | none ↦ none
  | some message ↦ elim (int_to_string regs.int_no buffer) [
    | none ↦ none
    | some number ↦ some (
        let s = put_string (codes "Exception: ") (put_char b'\n' s) in
        let s = put_char b'\n' (put_string message s) in
        let s = put_string (codes "Interrupt Number: ") s in
        let s = put_char b'\n' (put_buffer 16 0 number s) in
        put_string (codes "System Halted.\n") s)
  ]
]

abbrev pub keyboard_data_port : ℕ
keyboard_data_port = 0x60

module _ {S : Type 0} (io : Ports S) where
  -- `none` is that of `handle_scancode`.
  unfoldable pub keyboard_handler : Keyboard → S → Option (Keyboard × S)
  unfolding handle_scancode pic_send_ack
  keyboard_handler k s =
      let (scancode, s') = io.inb keyboard_data_port s in
      elim (handle_scancode scancode k) [ none ↦ none | some k' ↦ some (k', pic_send_ack io s') ]

  -- With the process to switch to, if any.
  unfoldable pub pit_handler : Scheduler → S → Option (Option ℕ × Scheduler × S)
  unfolding scheduler_handle_tick pic_send_ack
  pit_handler q s = elim (scheduler_handle_tick q) [
    | none ↦ none
    | some (next, q') ↦ some (next, q', pic_send_ack io s)
  ]
