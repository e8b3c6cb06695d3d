-- ===== src/Errors.antt =====
-- errors.c and std/assert.c: what stands on the screen when the kernel stops for good. The endless loops
-- at the end are left out.
pub mod Shown
mod Tests
use my_os.Base.{ℕ, Option, none, some, List, [], ◌∷◌}
use my_os.Screen.{Screen, put_string, clear_screen}
use my_os.Std.Stdlib.{int_to_string}
use my_os.Std.Stdio.Printf.{codes, put_buffer}

unfoldable pub panic : (msg : List ℕ) → Screen → Screen
panic msg s = put_string msg (put_string (codes "Kernel Panic: ") s)

unfoldable pub put_function : Option (List ℕ) → Screen → Screen
put_function none s = s
put_function (some name) s = put_string name (put_string (b'\n' ∷ codes "Function: ") s)

-- `buffer` is what the local array of 16 bytes holds at first; a `function` of `none` is NULL. The result
-- is `none` where int_to_string has no defined behaviour.
unfoldable pub assert_fail :
    (buffer : ℕ → ℕ)
    → (assertion file : List ℕ) → (line : ℕ) → (function : Option (List ℕ)) → Screen
    → Option Screen
unfolding put_buffer put_function
assert_fail buffer assertion file line function s =
    let s = put_string (codes "Assertion failed: ") (clear_screen s) in
    let s = put_string assertion s in
    let s = put_string (b'\n' ∷ codes "File: ") s in
    let s = put_string file s in
    let s = put_string (b'\n' ∷ codes "Line: ") s in
    elim (int_to_string line buffer) [
      | none ↦ none
      | some line_str ↦
          let s = put_function function (put_buffer 16 0 line_str s) in
          some (put_string (b'\n' ∷ codes "System halted.\n") s)
    ]
