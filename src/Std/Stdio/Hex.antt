-- ===== src/Std/Stdio/Hex.antt =====
-- The text that `int_to_hex_string` leaves.
use my_os.Base.{
  ℕ, zero, suc, ◌+◌, ◌*◌, ◌/◌, ◌%◌, ◌^◌, ◌<◌, ◌≡◌, refl, ◌∙◌, ap, bit_and, List, [], ◌∷◌, get_or,
  arith,
}
use my_os.Base.Align.{bit_and-low}
use my_os.Std.{Holds}
use my_os.Std.Stdio.{hex_chars, int_to_hex_string}

-- The hexadecimal digit of the lowest four bits.
unfoldable pub hex_digit : ℕ → ℕ
hex_digit n = get_or hex_chars (n % 16) 0

-- The eight hexadecimal digits of a number, the highest first.
unfoldable pub hex_text : ℕ → List ℕ
unfolding hex_digit
hex_text n =
    hex_digit (n / 16 ^ 7)
    ∷ hex_digit (n / 16 ^ 6)
    ∷ hex_digit (n / 16 ^ 5)
    ∷ hex_digit (n / 16 ^ 4)
    ∷ hex_digit (n / 16 ^ 3)
    ∷ hex_digit (n / 16 ^ 2)
    ∷ hex_digit (n / 16)
    ∷ hex_digit n
    ∷ []

nibble : (n : ℕ) → get_or hex_chars (bit_and n 0xF) 0 ≡ hex_digit n
unfolding hex_digit
nibble n =
    let e : n / 16 * 16 + n % 16 ≡ n = omega arith in
    let f : bit_and n 0xF ≡ n % 16 = rw e at (bit_and-low 4 (n / 16) (n % 16) (omega arith)) in
    rw f refl

same_digit : {m n : ℕ} → m ≡ n → get_or hex_chars (bit_and m 0xF) 0 ≡ hex_digit n
same_digit {m} e = nibble m ∙ ap hex_digit e

-- The loop starts one index too high, and the NUL overwrites the lowest digit: what is left is the
-- text of the number divided by 16, for every number of 32 bits.
pub int_to_hex_string-Holds :
    (num : ℕ) (buffer : ℕ → ℕ)
    → num < 2 ^ 32
    → Holds (int_to_hex_string num buffer) (hex_text (num / 16))
unfolding int_to_hex_string hex_text
int_to_hex_string-Holds num buffer h zero le = same_digit (omega arith)
int_to_hex_string-Holds num buffer h (suc zero) le = same_digit (omega arith)
int_to_hex_string-Holds num buffer h (suc (suc zero)) le = same_digit (omega arith)
int_to_hex_string-Holds num buffer h (suc (suc (suc zero))) le = same_digit (omega arith)
int_to_hex_string-Holds num buffer h (suc (suc (suc (suc zero)))) le = same_digit (omega arith)
int_to_hex_string-Holds num buffer h (suc (suc (suc (suc (suc zero))))) le =
    same_digit (omega arith)
int_to_hex_string-Holds num buffer h (suc (suc (suc (suc (suc (suc zero)))))) le =
    same_digit (omega arith)
int_to_hex_string-Holds num buffer h (suc (suc (suc (suc (suc (suc (suc zero))))))) le =
    same_digit (omega arith)
int_to_hex_string-Holds num buffer h (suc (suc (suc (suc (suc (suc (suc (suc zero)))))))) le = refl
int_to_hex_string-Holds num buffer h (suc (suc (suc (suc (suc (suc (suc (suc (suc k))))))))) le =
    absurd (omega arith)
