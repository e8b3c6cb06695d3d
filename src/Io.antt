-- ===== src/Io.antt =====
-- drivers/io.h: the machine behind the port instructions, which its clients take as a parameter.
use my_os.Base.{ℕ}

-- What each instruction does to the state `S` of the machine: reads take a port, writes a port and a
-- value.
pub record Ports (S : Type 0) : Type 0 where
  pub inb : ℕ → S → ℕ × S
  pub in16 : ℕ → S → ℕ × S
  pub outb : ℕ → ℕ → S → S
  pub out16 : ℕ → ℕ → S → S
  pub in32 : ℕ → S → ℕ × S
  pub out32 : ℕ → ℕ → S → S
