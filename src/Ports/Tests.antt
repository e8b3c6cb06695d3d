-- ===== src/Ports/Tests.antt =====
-- The theorems on pic.c and pit.c on a machine whose ports are registers of a byte.
use my_os.Base.{ℕ, ◌%◌, refl, arith}
use my_os.Base.Masks.{update}
use my_os.Io.{Ports}
use my_os.Ports.Masks.{HasMasks}

abbrev registers : Ports (ℕ → ℕ)
registers = record {
  inb = λ port s. (s port % 256, s);
  in16 = λ port s. (0, s);
  outb = λ port value s. update s port value;
  out16 = λ port value s. s;
  in32 = λ port s. (0, s);
  out32 = λ port value s. s;
}

registers-HasMasks : HasMasks registers (λ s port. s port % 256)
registers-HasMasks = record {
  byte = λ s port. omega arith;
  reads = λ s port h. refl;
  writes = λ s port value q h small. ground arith;
}
