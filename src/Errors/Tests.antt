-- ===== src/Errors/Tests.antt =====
-- The theorem on failed assertions at that of line 61 of memory/pmm.c.
use my_os.Base.{All, ℕ, ◌≡◌, arith, some, List}
use my_os.Screen.{Screen, empty_letter, put_string, clear_screen}
use my_os.Std.Stdlib.{atoi}
use my_os.Std.Stdlib.Digits.{IsDigit}
use my_os.Std.Stdio.Printf.{codes}
use my_os.Errors.{assert_fail}
use my_os.Errors.Shown.{message, assert_fail-shows}

abbrev blank_screen : Screen
blank_screen = record { video_memory = λ _. empty_letter; pos_on_screen = 0; color = 7 }

assert_fail-shows_example :
    (digits : List ℕ) × All IsDigit digits
    × (atoi digits ≡ 61)
    × (assert_fail
          (λ _. 7)
          (codes "is_aligned")
          (codes "memory/pmm.c")
          61
          (some (codes "free"))
          blank_screen
        ≡ some (
            put_string
              (message (codes "is_aligned") (codes "memory/pmm.c") digits (some (codes "free")))
              (clear_screen blank_screen)))
assert_fail-shows_example =
    assert_fail-shows (λ _. 7) (codes "is_aligned") (codes "memory/pmm.c") 61 (some (codes "free"))
      blank_screen (omega arith)
