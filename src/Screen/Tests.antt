-- ===== src/Screen/Tests.antt =====
-- Runs of drivers/screen.c, and its theorems at concrete screens.
use my_os.Base.{◌≡◌, refl, [], ◌∷◌}
use my_os.Screen.{Letter, Screen, clear_screen, put_char, put_string}
use my_os.Screen.Write.{StaysOnScreen, put_char-StaysOnScreen}

abbrev letter_a : Letter
letter_a = record { c = b'a'; color = 7 }

-- Every cell holds an `a`, and the cursor stands in the second row.
abbrev page : Screen
page = record { video_memory = λ _. letter_a; pos_on_screen = 83; color = 2 }

abbrev full : Screen
full = record page { pos_on_screen = 2000 }

put_char-StaysOnScreen_example : StaysOnScreen full (put_char b'x' full)
put_char-StaysOnScreen_example = put_char-StaysOnScreen b'x' full

greeting : (put_string (b'h' ∷ b'i' ∷ b'\n' ∷ []) (clear_screen page)).pos_on_screen ≡ 80
unfolding put_string put_char clear_screen
greeting = refl
