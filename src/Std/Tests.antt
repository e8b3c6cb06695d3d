-- ===== src/Std/Tests.antt =====
-- Runs of the C library, and its theorems at concrete inputs.
use my_os.Base.{◌==◌, if◌then◌else◌, ℕ, ◌-◌, ◌/◌, ◌≡◌, refl, List, [], ◌∷◌, some, arith}
use mathlib.Core.Option
use my_os.Base.Int.{negsuc}
use my_os.Std.{Holds}
use my_os.Std.CString.{strcmp, IsCString}
use my_os.Std.Stdlib.{int_to_string, write_digits, finish}
use my_os.Screen.{Screen, empty_letter}
use my_os.Std.Stdio.Printf.{codes, va_word, printf}
use my_os.Std.Stdio.Printf.Pieces.{Piece, plain, text, letter, format_of, shown, printf-shown}
use my_os.Std.Stdio.{int_to_hex_string}
use my_os.Std.Stdio.Hex.{hex_text, int_to_hex_string-Holds}

abbrev help : List ℕ
help = b'h' ∷ b'e' ∷ b'l' ∷ b'p' ∷ []

abbrev hex : List ℕ
hex = b'h' ∷ b'e' ∷ b'x' ∷ []

help_before_hex : strcmp help hex ≡ negsuc 11
unfolding strcmp
help_before_hex = refl

help-IsCString : IsCString help
help-IsCString = omega arith

hex-IsCString : IsCString hex
hex-IsCString = omega arith

minus_42 :
    Option.map (λ (str : ℕ → ℕ). str 1) (int_to_string (0xffff_ffff - 41) (λ _. 7)) ≡ some b'4'
unfolding int_to_string write_digits finish
minus_42 = refl

int_to_hex_string-Holds_example :
    Holds (int_to_hex_string 0xB8001 (λ _. 7)) (hex_text (0xB8001 / 16))
int_to_hex_string-Holds_example = int_to_hex_string-Holds 0xB8001 (λ _. 7) (omega arith)

-- The address 500 and one letter.
abbrev pushed_bytes : ℕ → ℕ
pushed_bytes a = if a == 100 then 244 else if a == 101 then 1 else if a == 104 then b'!' else 0

abbrev three_pieces : List Piece
three_pieces = plain b'-' ∷ text 500 ∷ letter b'!' ∷ []

abbrev blank_screen : Screen
blank_screen = record { video_memory = λ _. empty_letter; pos_on_screen = 0; color = 7 }

printf-shown_example :
    printf (λ _. 0) pushed_bytes (λ a. codes "os") (format_of three_pieces) 100 blank_screen
    ≡ shown (λ _. 0) (λ a. codes "os") three_pieces blank_screen
unfolding va_word
printf-shown_example =
    printf-shown (λ _. 0) pushed_bytes (λ a. codes "os") three_pieces 100 blank_screen
      (refl, (refl, (refl, tt)))
