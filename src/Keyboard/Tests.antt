-- ===== src/Keyboard/Tests.antt =====
-- Runs of drivers/keyboard.c, and its theorems at concrete states.
use my_os.Base.{if◌then◌else◌, ◌≡◌, refl, [], ◌∷◌, ◌++◌, true, false, some, arith}
use my_os.Base.Masks.{update}
use my_os.Screen.{Screen, empty_letter, put_char}
use my_os.Keyboard.{
  Buffer, Keyboard, scancode_to_ascii, shift_ascii, handle_scancode, keyboard_buffer_put,
  keyboard_buffer_get, type_char, backspace,
}
use my_os.Keyboard.Queue.{
  IsValid, count, contents, view, dequeue, put-append, put-full, get-dequeue,
}
use my_os.Keyboard.Typing.{IsTyping, key_char, handle_scancode-append, backspace_undoes}

-- Two characters wait, round the end of the storage.
abbrev wrapped : Buffer
wrapped = record { cells = update (update (λ _. 0) 255 b'x') 0 b'y'; head = 1; tail = 255 }

abbrev crowded : Buffer
crowded = record { cells = λ _. b'z'; head = 4; tail = 5 }

abbrev blank_screen : Screen
blank_screen = record { video_memory = λ _. empty_letter; pos_on_screen = 0; color = 7 }

abbrev shifted : Keyboard
shifted = record {
  buffer = wrapped;
  shift_pressed = true;
  put_on_screen = true;
  caps_lock = false;
  screen = blank_screen;
}

wrapped-IsValid : IsValid wrapped
wrapped-IsValid = omega arith

crowded-IsValid : IsValid crowded
crowded-IsValid = omega arith

put-append_example :
    IsValid (keyboard_buffer_put b'q' wrapped)
    × (contents (keyboard_buffer_put b'q' wrapped) ≡ b'x' ∷ b'y' ∷ b'q' ∷ [])
unfolding contents
put-append_example = put-append b'q' wrapped-IsValid (omega arith)

put-full_example : contents (keyboard_buffer_put b'q' crowded) ≡ []
unfolding count
put-full_example = put-full b'q' crowded-IsValid refl

get-dequeue_example : view (keyboard_buffer_get wrapped) ≡ some (b'x', b'y' ∷ [])
unfolding contents dequeue
get-dequeue_example = get-dequeue wrapped-IsValid

q-IsTyping : IsTyping 16
q-IsTyping = omega arith

handle_scancode-append_example :
    (k' : Keyboard) × (handle_scancode 16 shifted ≡ some k')
    × (contents k'.buffer ≡ contents wrapped ++ (b'Q' ∷ []))
    × IsValid k'.buffer
    × (k'.screen ≡ (if shifted.put_on_screen then put_char b'Q' shifted.screen else shifted.screen))
    × (k'.shift_pressed ≡ true)
    × (k'.caps_lock ≡ false)
unfolding key_char shift_ascii count
handle_scancode-append_example =
    handle_scancode-append 16 shifted q-IsTyping wrapped-IsValid (omega arith)

backspace_undoes_example :
    (k'' : Keyboard) × (handle_scancode backspace (type_char b'q' shifted) ≡ some k'')
    × (contents k''.buffer ≡ contents wrapped)
unfolding handle_scancode count scancode_to_ascii
backspace_undoes_example =
    backspace_undoes 16 shifted (type_char b'q' shifted) q-IsTyping wrapped-IsValid (omega arith)
      refl
