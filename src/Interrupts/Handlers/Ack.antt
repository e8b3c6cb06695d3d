-- ===== src/Interrupts/Handlers/Ack.antt =====
-- What the handlers leave for the interrupt controller.
use my_os.Base.{◌<◌, ◌≡◌, refl, some, inl, inr, Option-cases}
use my_os.Io.{Ports}
use my_os.Keyboard.{Keyboard, handle_scancode}
use my_os.Keyboard.Keys.{handle_scancode-ne-none}
use my_os.Ports.Pic.{pic_send_ack}
use my_os.Interrupts.Handlers.{keyboard_handler}

-- Every keyboard interrupt is handled to its end, whatever byte the port holds: the handler passes the
-- scancode on once, and its last action is the acknowledgement to the controller.
pub keyboard_handler-acknowledges :
    {S : Type 0}
    → (io : Ports S) (k : Keyboard) (s : S) → (io.inb 0x60 s).0 < 256
    → (k' : Keyboard) × (handle_scancode (io.inb 0x60 s).0 k ≡ some k')
      × (keyboard_handler io k s ≡ some (k', io.outb 0x20 0x20 (io.inb 0x60 s).1))
unfolding keyboard_handler pic_send_ack
keyboard_handler-acknowledges io k s byte =
    elim (Option-cases (handle_scancode (io.inb 0x60 s).0 k)) [
      | inl past ↦ absurd (handle_scancode-ne-none (io.inb 0x60 s).0 k byte past)
      | inr (k', handled) ↦ (k', handled, rw (handled, keyboard_handler) refl)
    ]
