-- ===== src/Errors/Shown.antt =====
-- The text that a failed assertion puts on the screen.
use my_os.Base.{
  ℕ, zero, suc, ◌+◌, ◌≤◌, ◌<◌, ◌^◌, ◌≡◌, refl, ◌∙◌, ap, sym, arith, true, false, Option, none, some,
  List, [], ◌∷◌, All, ◌++◌, length, get_or, ◌==◌,
}
use my_os.Screen.{Screen, put_char, put_string, clear_screen}
use my_os.Std.Stdlib.{atoi}
use my_os.Std.Stdlib.Digits.{IsDigit}
use my_os.Std.Stdlib.RoundTrip.{IsText, int_to_string-IsText}
use my_os.Std.Stdio.Printf.{codes, put_buffer}
use my_os.Errors.{assert_fail, put_function}

put_string-append :
    (xs ys : List ℕ) (s : Screen) → put_string (xs ++ ys) s ≡ put_string ys (put_string xs s)
unfolding put_string
put_string-append [] ys s = refl
put_string-append (x ∷ xs) ys s = put_string-append xs ys (put_char x s)

at_start : (i : ℕ) → i ≡ i + 0
at_start i = omega arith

from_start : (k : ℕ) → 0 + k ≡ k
from_start k = omega arith

next : (i k : ℕ) → i + 1 + k ≡ i + suc k
next i k = omega arith

-- A buffer that holds a text shows it.
put_buffer-Holds :
    (n i : ℕ) (buffer : ℕ → ℕ) (str : List ℕ) (s : Screen)
    → length str < n
    → IsText str
    → ((k : ℕ) → k ≤ length str → buffer (i + k) ≡ get_or str k 0)
    → put_buffer n i buffer s ≡ put_string str s
unfolding put_buffer put_string
put_buffer-Holds zero i buffer str s fits chars holds = absurd (omega (arith, fits))
put_buffer-Holds (suc n) i buffer [] s fits chars holds =
    let e : (buffer i == 0) ≡ true =
      ground (arith, ap buffer (at_start i), holds 0 (omega arith)) in
    rw (e, put_buffer) refl
put_buffer-Holds (suc n) i buffer (c ∷ str) s fits chars holds =
    let here : buffer i ≡ c = ap buffer (at_start i) ∙ holds 0 (omega arith) in
    let e : (buffer i == 0) ≡ false = ap (λ x. x == 0) here ∙ chars.0 in
    rw (e, put_buffer)
      (put_buffer-Holds n (i + 1) buffer str (put_char (buffer i) s) (omega (arith, fits)) chars.1
          (λ k h. ap buffer (next i k) ∙ holds (suc k) (omega (arith, h)))
        ∙ ap (λ x. put_string str (put_char x s)) here)

-- What the message says of the function.
abbrev pub of_function : Option (List ℕ) → List ℕ
of_function none = []
of_function (some name) = b'\n' ∷ codes "Function: " ++ name

abbrev pub message : (assertion file line : List ℕ) → (function : Option (List ℕ)) → List ℕ
message assertion file line function =
    codes "Assertion failed: "
    ++ assertion
    ++ (b'\n' ∷ codes "File: ")
    ++ file
    ++ (b'\n' ∷ codes "Line: ")
    ++ line
    ++ of_function function
    ++ (b'\n' ∷ codes "System halted.\n")

put_function-shows :
    (function : Option (List ℕ)) (s : Screen)
    → put_function function s ≡ put_string (of_function function) s
unfolding put_function put_string
put_function-shows none s = refl
put_function-shows (some name) s = sym (put_string-append (b'\n' ∷ codes "Function: ") name s)

-- The parts of the message, one after the other.
message-parts :
    (assertion file line : List ℕ) (function : Option (List ℕ)) (s : Screen)
    → put_string (message assertion file line function) s
      ≡ put_string (b'\n' ∷ codes "System halted.\n") (
          put_string (of_function function) (
            put_string line (
              put_string (b'\n' ∷ codes "Line: ") (
                put_string file (
                  put_string
                    (b'\n' ∷ codes "File: ")
                    (put_string assertion (put_string (codes "Assertion failed: ") s)))))))
message-parts assertion file line function s = simp put_string-append refl

-- A failed assertion clears the screen and then puts exactly one text on it with `put_string`, which
-- scrolls where the text is longer than the screen: the expression, the file, the line in decimal digits
-- that `atoi` reads back, the function where there is one, and that the system halts. The line fits an
-- `int`.
pub assert_fail-shows :
    (buffer : ℕ → ℕ) (assertion file : List ℕ) (line : ℕ) (function : Option (List ℕ)) (s : Screen)
    → line < 2 ^ 31
    → (digits : List ℕ) × All IsDigit digits
      × (atoi digits ≡ line)
      × (assert_fail buffer assertion file line function s
          ≡ some (put_string (message assertion file digits function) (clear_screen s)))
unfolding assert_fail
assert_fail-shows buffer assertion file line function s fits =
    let (str', digits, run, holds, back, short, chars, decimal) =
      int_to_string-IsText line buffer (omega (arith, fits)) (omega (arith, fits)) in
    let s0 = put_string (codes "Assertion failed: ") (clear_screen s) in
    let s1 = put_string (b'\n' ∷ codes "File: ") (put_string assertion s0) in
    let s2 = put_string (b'\n' ∷ codes "Line: ") (put_string file s1) in
    let shows : put_buffer 16 0 str' s2 ≡ put_string digits s2 =
      put_buffer-Holds 16 0 str' digits s2 (omega (arith, short)) chars
        (λ k h. ap str' (from_start k) ∙ holds k h) in
    (
      digits,
      decimal (ground (arith, fits)),
      back,
      rw (run, assert_fail)
          (ap some (
            ap (put_string (b'\n' ∷ codes "System halted.\n")) (
              put_function-shows function (put_buffer 16 0 str' s2)
              ∙ ap (put_string (of_function function)) shows)
            ∙ sym (message-parts assertion file digits function (clear_screen s)))),
    )
