-- ===== src/Keyboard.antt =====
-- drivers/keyboard.c and drivers/keyboard.h: the scancode handler and the ring buffer of typed
-- characters. A `char` or `uint8_t` is a number below 256.
pub mod Queue
pub mod Keys
pub mod Typing
mod Tests
use my_os.Base.{
  ℕ, zero, suc, ◌+◌, ◌-◌, ◌%◌, ◌^◌, bit_and, Bool, true, false, not, ◌&&◌, ◌||◌, Option, none, some,
  List, [], ◌∷◌, ltb, leb, ◌==◌, if◌then◌else◌, get_or,
}
use my_os.Base.Masks.{update}
use my_os.Screen.{Screen, put_char, move_cursor_back}

abbrev pub keyrelease_mask : ℕ
keyrelease_mask = 0x80

abbrev pub shift_key : ℕ
shift_key = 0x2A

abbrev pub caps_lock_key : ℕ
caps_lock_key = 0x3A

abbrev pub backspace : ℕ
backspace = 0x0E

abbrev pub buffer_size : ℕ
buffer_size = 256

pub record Buffer : Type 0 where
  pub cells : ℕ → ℕ
  pub head : ℕ
  pub tail : ℕ

pub record Keyboard : Type 0 where
  pub buffer : Buffer
  pub shift_pressed : Bool
  pub put_on_screen : Bool
  pub caps_lock : Bool
  pub screen : Screen

unfoldable pub is_key_released : ℕ → Bool
is_key_released scancode = not (bit_and scancode keyrelease_mask == 0)

unfoldable pub is_keyboard_buffer_empty : Buffer → Bool
is_keyboard_buffer_empty b = b.head == b.tail

-- `(buffer_head - 1) % BUFFER_SIZE` is -1 at 0, which becomes 255 in the `uint8_t`.
unfoldable pub rm_last_char_buffer : Buffer → Buffer
rm_last_char_buffer b =
    if b.head == b.tail then b else record b { head = (b.head + 256 - 1) % buffer_size }

unfoldable pub keyboard_buffer_put : ℕ → Buffer → Buffer
keyboard_buffer_put c b = record b {
  cells = update b.cells b.head c;
  head = (b.head + 1) % buffer_size;
}

-- `none`: the buffer is empty, and the function waits for an interrupt to fill it.
unfoldable pub keyboard_buffer_get : Buffer → Option (ℕ × Buffer)
unfolding is_keyboard_buffer_empty
keyboard_buffer_get b =
    if is_keyboard_buffer_empty b
    then none
    else some (b.cells b.tail, record b { tail = (b.tail + 1) % buffer_size })

unfoldable pub set_put_on_screen : Bool → Keyboard → Keyboard
set_put_on_screen value k = record k { put_on_screen = value }

-- The entries that `kbd_us` lists; the rest of its 128 are zero.
abbrev pub kbd_us : List ℕ
kbd_us =
    0 ∷ 27 ∷ b'1' ∷ b'2' ∷ b'3' ∷ b'4' ∷ b'5' ∷ b'6' ∷ b'7' ∷ b'8' ∷ b'9' ∷ b'0' ∷ b'-' ∷ b'=' ∷ 8
    ∷ 9 ∷ b'q' ∷ b'w' ∷ b'e' ∷ b'r' ∷ b't' ∷ b'y' ∷ b'u' ∷ b'i' ∷ b'o' ∷ b'p' ∷ b'[' ∷ b']' ∷ 10 ∷ 0
    ∷ b'a' ∷ b's' ∷ b'd' ∷ b'f' ∷ b'g' ∷ b'h' ∷ b'j' ∷ b'k' ∷ b'l' ∷ b';' ∷ 39 ∷ b'`' ∷ 0 ∷ 92
    ∷ b'z' ∷ b'x' ∷ b'c' ∷ b'v' ∷ b'b' ∷ b'n' ∷ b'm' ∷ b',' ∷ b'.' ∷ b'/' ∷ 0 ∷ b'*' ∷ 0 ∷ b' ' ∷ 0
    ∷ []

-- `none` is a read past the 128 entries of the table.
unfoldable pub scancode_to_ascii : ℕ → Option ℕ
scancode_to_ascii scancode =
    if ltb 128 scancode
    then some 0
    else if ltb scancode 128
    then some (get_or kbd_us scancode 0)
    else none

-- The `switch` of `shift_ascii`.
unfoldable pub shift_symbol : ℕ → ℕ
shift_symbol c =
    if c == b'1'
    then b'!'
    else if c == b'2'
    then b'@'
    else if c == b'3'
    then b'#'
    else if c == b'4'
    then b'$'
    else if c == b'5'
    then b'%'
    else if c == b'6'
    then b'^'
    else if c == b'7'
    then b'&'
    else if c == b'8'
    then b'*'
    else if c == b'9'
    then b'('
    else if c == b'0'
    then b')'
    else if c == b'-'
    then b'_'
    else if c == b'='
    then b'+'
    else if c == b'['
    then b'{'
    else if c == b']'
    then b'}'
    else if c == 92
    then b'|'
    else if c == b';'
    then b':'
    else if c == 39
    then 34
    else if c == b','
    then b'<'
    else if c == b'.'
    then b'>'
    else if c == b'/'
    then b'?'
    else if c == b'`'
    then b'~'
    else c

unfoldable pub shift_ascii : ℕ → ℕ
unfolding shift_symbol
shift_ascii c = if leb b'a' c && leb c b'z' then c - 32 else shift_symbol c

-- What a pressed key other than shift, caps lock and backspace does.
unfoldable pub type_char : ℕ → Keyboard → Keyboard
unfolding shift_ascii
type_char c k =
    let c' = if k.shift_pressed || k.caps_lock then shift_ascii c else c in
    record k {
      buffer = keyboard_buffer_put c' k.buffer;
      screen = if k.put_on_screen then put_char c' k.screen else k.screen;
    }

unfoldable pub press_backspace : Keyboard → Keyboard
press_backspace k = if is_keyboard_buffer_empty k.buffer then k else record k {
  buffer = rm_last_char_buffer k.buffer;
  screen = if k.put_on_screen then move_cursor_back k.screen else k.screen;
}

-- `none` is a read past the end of `kbd_us`.
unfoldable pub handle_scancode : ℕ → Keyboard → Option Keyboard
unfolding is_key_released
handle_scancode scancode k =
    if is_key_released scancode
    then some
        (if scancode - keyrelease_mask == shift_key then record k { shift_pressed = false } else k)
    else if scancode == shift_key
    then some (record k { shift_pressed = true })
    else if scancode == caps_lock_key
    then some (record k { caps_lock = not k.caps_lock })
    else if scancode == backspace
    then some (press_backspace k)
    else elim (scancode_to_ascii scancode) [ none ↦ none | some c ↦ some (type_char c k) ]
