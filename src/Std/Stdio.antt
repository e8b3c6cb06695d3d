-- ===== src/Std/Stdio.antt =====
-- std/stdio.c: the hexadecimal printer and `printf`.
pub mod Hex
pub mod Printf
use my_os.Base.{
  ℕ, zero, suc, ◌+◌, ◌-◌, ◌*◌, ◌/◌, ◌%◌, ◌^◌, bit_and, Bool, true, false, Option, none, some, List,
  [], ◌∷◌, ◌++◌, get_or, ◌==◌, if◌then◌else◌,
}
use my_os.Base.Masks.{update}

abbrev pub hexa_size : ℕ
hexa_size = 8

abbrev pub hex_chars : List ℕ
hex_chars =
    b'0' ∷ b'1' ∷ b'2' ∷ b'3' ∷ b'4' ∷ b'5' ∷ b'6' ∷ b'7' ∷ b'8' ∷ b'9' ∷ b'A' ∷ b'B' ∷ b'C' ∷ b'D'
    ∷ b'E' ∷ b'F' ∷ []

-- `for (int i = ...; i >= 0; i--)`, with `rounds` indices left, the highest one first.
unfoldable pub hex_loop : (rounds : ℕ) → ℕ → (ℕ → ℕ) → ℕ → ℕ
hex_loop zero num buffer = buffer
hex_loop (suc i) num buffer =
    hex_loop i (num / 2 ^ 4) (update buffer i (get_or hex_chars (bit_and num 0xF) 0))

unfoldable pub int_to_hex_string : ℕ → (ℕ → ℕ) → ℕ → ℕ
unfolding hex_loop
int_to_hex_string num buffer = update (hex_loop (hexa_size + 1) num buffer) 8 0
