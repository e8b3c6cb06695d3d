-- ===== src/Ports/Pic.antt =====
-- interupts/pic.c: the interrupt controllers, over a machine with ports. Disabling and enabling the
-- interrupts (cli, sti) is left out.
use my_os.Base.{ℕ, ◌-◌, bit_or, Option, none, some, ltb, if◌then◌else◌}
use my_os.Base.Masks.{clear_bit}
use my_os.Io.{Ports}

abbrev pub pic1_command : ℕ
pic1_command = 0x20

abbrev pub pic1_data : ℕ
pic1_data = 0x21

abbrev pub pic2_command : ℕ
pic2_command = 0xA0

abbrev pub pic2_data : ℕ
pic2_data = 0xA1

abbrev pub irq_num : ℕ
irq_num = 16

abbrev pub pic_irq_amount : ℕ
pic_irq_amount = 8

module _ {S : Type 0} (io : Ports S) where
  unfoldable pub pic_send_ack : S → S
  pic_send_ack s = io.outb pic1_command 0x20 s

  -- The masks are ~(1 << 1) as a byte, and 0xFF.
  unfoldable pub mask_all_except_keyboard : S → S
  mask_all_except_keyboard s = io.outb pic2_data 0xFF (io.outb pic1_data 0xFD s)

  unfoldable pub remap_pic : S → S
  unfolding mask_all_except_keyboard
  remap_pic s =
      let (master_mask, s) = io.inb pic1_data s in
      let (slave_mask, s) = io.inb pic2_data s in
      let s = io.outb pic1_command (bit_or 0x10 0x01) s in
      let s = io.outb pic2_command (bit_or 0x10 0x01) s in
      let s = io.outb pic1_data 0x20 s in
      let s = io.outb pic2_data 0x28 s in
      let s = io.outb pic1_data 0x04 s in
      let s = io.outb pic2_data 0x02 s in
      let s = io.outb pic1_data 0x01 s in
      let s = io.outb pic2_data 0x01 s in
      let s = io.outb pic1_data master_mask s in
      let s = io.outb pic2_data slave_mask s in mask_all_except_keyboard s

  -- `none` is the failed assertion.
  unfoldable pub unmask_irq : (irq : ℕ) → S → Option S
  unmask_irq irq s =
      let port = if ltb irq pic_irq_amount then pic1_data else pic2_data in
      let line = if ltb irq pic_irq_amount then irq else irq - pic_irq_amount in
      let (value, s') = io.inb port s in
      if ltb irq irq_num then some (io.outb port (clear_bit value line) s') else none
