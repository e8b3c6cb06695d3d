-- ===== src/Keyboard/Typing.antt =====
-- What typing does to the characters that wait.
use my_os.Base.{
  ℕ, ◌<◌, ◌≡◌, refl, ◌≢◌, ◌∙◌, ap, [], ◌∷◌, ◌++◌, false, ◌||◌, some, arith, if◌then◌else◌, get_or,
}
use my_os.Screen.{put_char}
use my_os.Keyboard.{
  Buffer, Keyboard, kbd_us, scancode_to_ascii, shift_ascii, handle_scancode, press_backspace,
  type_char, keyboard_buffer_put, shift_key, caps_lock_key, backspace, is_keyboard_buffer_empty,
  rm_last_char_buffer,
}
use my_os.Keyboard.Keys.{is_key_released-eq}
use my_os.Keyboard.Queue.{IsValid, count, contents, put-append, rm_last_char_buffer-put}

-- A key that types: pressed, and neither shift, caps lock nor backspace.
pub record IsTyping (scancode : ℕ) : Type 0 where
  pub pressed : scancode < 128
  pub not_shift : scancode ≢ shift_key
  pub not_caps : scancode ≢ caps_lock_key
  pub not_backspace : scancode ≢ backspace

-- The character that a key gives in a state of the shift and caps lock keys.
unfoldable pub key_char : ℕ → Keyboard → ℕ
key_char scancode k =
    let c = get_or kbd_us scancode 0 in if k.shift_pressed || k.caps_lock then shift_ascii c else c

handle_scancode-types :
    (scancode : ℕ) (k : Keyboard)
    → IsTyping scancode
    → handle_scancode scancode k ≡ some (type_char (get_or kbd_us scancode 0) k)
unfolding handle_scancode scancode_to_ascii
handle_scancode-types scancode k t =
    ground (arith, is_key_released-eq scancode, t.pressed, t.not_shift, t.not_caps, t.not_backspace)

backspace_pressed : (k : Keyboard) → handle_scancode backspace k ≡ some (press_backspace k)
unfolding handle_scancode
backspace_pressed k = ground (arith, is_key_released-eq 14)

put-waiting :
    (c : ℕ) {b : Buffer}
    → IsValid b
    → count b < 255
    → is_keyboard_buffer_empty (keyboard_buffer_put c b) ≡ false
unfolding is_keyboard_buffer_empty keyboard_buffer_put count
put-waiting c v room = ground (arith, v.head_in, v.tail_in)

press_backspace-buffer :
    (k : Keyboard)
    → is_keyboard_buffer_empty k.buffer ≡ false
    → (press_backspace k).buffer ≡ rm_last_char_buffer k.buffer
unfolding press_backspace
press_backspace-buffer k h = rw h

type_char-buffer :
    (scancode : ℕ) (k : Keyboard)
    → (type_char (get_or kbd_us scancode 0) k).buffer
      ≡ keyboard_buffer_put (key_char scancode k) k.buffer
unfolding type_char key_char
type_char-buffer scancode k = refl

-- While fewer than 255 characters wait, a typing key appends its character, shifted if shift or caps
-- lock is on, puts the same character on the screen if typing is shown and leaves the screen alone if
-- not, and changes neither the shift nor the caps lock state.
pub handle_scancode-append :
    (scancode : ℕ) (k : Keyboard)
    → IsTyping scancode
    → IsValid k.buffer
    → count k.buffer < 255
    → (k' : Keyboard) × (handle_scancode scancode k ≡ some k')
      × (contents k'.buffer ≡ contents k.buffer ++ (key_char scancode k ∷ []))
      × IsValid k'.buffer
      × (k'.screen
          ≡ (if k.put_on_screen then put_char (key_char scancode k) k.screen else k.screen))
      × (k'.shift_pressed ≡ k.shift_pressed)
      × (k'.caps_lock ≡ k.caps_lock)
unfolding key_char type_char
handle_scancode-append scancode k t v room =
    let (valid, more) = put-append (key_char scancode k) v room in
    (
      type_char (get_or kbd_us scancode 0) k,
      handle_scancode-types scancode k t,
      more,
      valid,
      refl,
      refl,
      refl,
    )

-- The backspace key right after a typing key leaves the characters that wait in the ring as they were
-- before both, if fewer than 255 were waiting; what it does to the screen is not stated.
pub backspace_undoes :
    (scancode : ℕ) (k k' : Keyboard)
    → IsTyping scancode
    → IsValid k.buffer
    → count k.buffer < 255
    → handle_scancode scancode k ≡ some k'
    → (k'' : Keyboard) × (handle_scancode backspace k' ≡ some k'')
      × (contents k''.buffer ≡ contents k.buffer)
backspace_undoes scancode k k' t v room e =
    let typed : Keyboard = type_char (get_or kbd_us scancode 0) k in
    let same : k' ≡ typed = ground (arith, handle_scancode-types scancode k t) in
    let back : contents (press_backspace typed).buffer ≡ contents k.buffer =
      ap contents (
        press_backspace-buffer typed (
          ap is_keyboard_buffer_empty (type_char-buffer scancode k)
          ∙ put-waiting (key_char scancode k) v room))
      ∙ ap (λ b. contents (rm_last_char_buffer b)) (type_char-buffer scancode k)
      ∙ rm_last_char_buffer-put (key_char scancode k) v room in
    rw same (press_backspace typed, backspace_pressed typed, back)
