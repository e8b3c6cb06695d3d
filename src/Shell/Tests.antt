-- ===== src/Shell/Tests.antt =====
-- The theorems on the shell, at two characters of which the second is erased, and at `exit`.
use my_os.Base.{ℕ, ◌<◌, ◌≤◌, ◌≡◌, refl, arith, List, [], ◌∷◌}
use my_os.Base.Masks.{update}
use my_os.Screen.{Screen, empty_letter}
use my_os.Shell.{read_line}
use my_os.Shell.Line.{read_line-in_bounds}

abbrev typed_line : List ℕ
typed_line = b'a' ∷ b'b' ∷ 8 ∷ b'\n' ∷ b'c' ∷ []

abbrev line_read : ℕ → ℕ
line_read = update (update (update (λ _. 1) 0 b'a') 1 b'b') 1 0

read_line-in_bounds_example :
    ((i : ℕ) × (i < 128) × (line_read i ≡ 0)) × ((k : ℕ) → 128 ≤ k → line_read k ≡ 1)
unfolding read_line
read_line-in_bounds_example =
    read_line-in_bounds typed_line 0 (λ _. 1) (b'c' ∷ []) line_read (omega arith) refl

abbrev empty_screen : Screen
empty_screen = record { video_memory = λ _. empty_letter; pos_on_screen = 0; color = 7 }
