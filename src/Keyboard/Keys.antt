-- ===== src/Keyboard/Keys.antt =====
-- The key tables of drivers/keyboard.c.
use my_os.Base.{ℕ, ◌<◌, ◌≡◌, refl, ◌≢◌, ◌↔◌, true, none, leb, arith, ◌==◌, ==_iff}
use my_os.Base.Bits.{bit, bit_and-pow_test}
use my_os.Base.Table.{all_below, true_of_all_below}
use my_os.Keyboard.{Keyboard, scancode_to_ascii, shift_ascii, handle_scancode, is_key_released}

-- The guard of `scancode_to_ascii` lets exactly the scancode 128 read past the end of the table.
pub scancode_to_ascii-eq-none :
    (scancode : ℕ) → (scancode_to_ascii scancode ≡ none) ↔ (scancode ≡ 128)
unfolding scancode_to_ascii
scancode_to_ascii-eq-none scancode = (λ h. ground arith, λ h. ground arith)

shift_table : all_below 256 (λ c. shift_ascii (shift_ascii c) == shift_ascii c) ≡ true
unfolding all_below shift_ascii
shift_table = refl

-- `shift_ascii` gives no character that it would change again.
pub shift_ascii-shift_ascii : (c : ℕ) → c < 256 → shift_ascii (shift_ascii c) ≡ shift_ascii c
shift_ascii-shift_ascii c h = (==_iff _ _).0 (true_of_all_below 256 _ c shift_table h)

pub is_key_released-eq :
    (scancode : ℕ) → scancode < 256 → is_key_released scancode ≡ leb 128 scancode
unfolding is_key_released bit
is_key_released-eq scancode h = ground (arith, bit_and-pow_test scancode 7)

-- No `uint8_t` makes `handle_scancode` read past the end of the table.
pub handle_scancode-ne-none :
    (scancode : ℕ) (k : Keyboard) → scancode < 256 → handle_scancode scancode k ≢ none
unfolding handle_scancode
handle_scancode-ne-none scancode k h =
    ground (arith, is_key_released-eq scancode h, scancode_to_ascii-eq-none scancode)
