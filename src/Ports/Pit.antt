-- ===== src/Ports/Pit.antt =====
-- drivers/pit.c: setting the timer up, over a machine with ports. The messages on the screen are left
-- out.
use my_os.Base.{ℕ, ◌/◌, ◌%◌, ◌^◌, bit_and, bit_or, Option, none, some, ltb, if◌then◌else◌}
use my_os.Io.{Ports}
use my_os.Ports.Pic.{unmask_irq}

abbrev pub pit_channel_0 : ℕ
pit_channel_0 = 0x40

abbrev pub pit_command : ℕ
pit_command = 0x43

abbrev pub pit_clock_frequency : ℕ
pit_clock_frequency = 1193182

abbrev pub pit_irq : ℕ
pit_irq = 0

-- Both tests on the frequency.
unfoldable pub clamp : ℕ → ℕ
clamp frequency =
    let f = if ltb frequency 20 then 20 else frequency in
    if ltb pit_clock_frequency f then pit_clock_frequency else f

-- The quotient is stored in 16 bits.
unfoldable pub divisor_of : (frequency : ℕ) → ℕ
divisor_of frequency = pit_clock_frequency / frequency % 2 ^ 16

module _ {S : Type 0} (io : Ports S) where
  -- With the new value of `frequency`.
  unfoldable pub pit_init : (frequency : ℕ) → S → Option (ℕ × S)
  unfolding clamp divisor_of
  pit_init frequency s =
      let f = clamp frequency in
      let divisor = divisor_of f in
      let s = io.outb pit_command (bit_or (bit_or (bit_or 0x00 0x30) 0x06) 0x00) s in
      let s = io.outb pit_channel_0 (bit_and divisor 0xFF) s in
      let s = io.outb pit_channel_0 (bit_and (divisor / 2 ^ 8) 0xFF) s in
      elim (unmask_irq io pit_irq s) [ none ↦ none | some s' ↦ some (f, s') ]
