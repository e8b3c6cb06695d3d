-- ===== src/Shell/Commands.antt =====
-- The commands of shell.c. The result says whether the shell goes on; `none` is undefined behaviour.
pub mod Effects
use my_os.Base.{
  ℕ, zero, suc, ◌-◌, Bool, true, false, not, ◌&&◌, Option, none, some, List, [], ◌∷◌, drop, ltb,
  leb, ◌==◌, if◌then◌else◌,
}
use my_os.Base.Int.{ℤ, pos, negsuc}
use my_os.Screen.{Screen, vga_height, clear_screen, clear_row, scroll_screen, set_color, put_string}
use my_os.Std.CString.{strcmp, strncmp}
use my_os.Std.Stdlib.{atoi, is_below_zero}
use my_os.Std.Stdio.Printf.{codes, put_int}

-- `!n`
abbrev pub is_zero : ℤ → Bool
is_zero (pos n) = n == 0
is_zero (negsuc n) = false

unfoldable pub shell_welcome_message : Screen → Screen
shell_welcome_message s =
    put_string (codes "Type 'help' to see available commands.\n\n")
      (put_string (codes "Welcome to Enhanced Shell!\n") (clear_screen s))

unfoldable pub shell_prompt : Screen → Screen
shell_prompt s = put_string (codes "EnhancedShell> ") s

unfoldable pub show_help : Screen → Screen
show_help s =
    let s = put_string (codes "\nAvailable commands:\n") s in
    let s = put_string (codes "  clear         - Clears the screen\n") s in
    let s = put_string (codes "  echo [text]   - Echoes the input text\n") s in
    let s = put_string (codes "  color [num]   - Changes the text color\n") s in
    let s = put_string (codes "  scroll        - Scrolls the screen\n") s in
    let s = put_string (codes "  clearrow [n]  - Clears a specific row (0-24)\n") s in
    put_string (codes "  exit          - Exits the shell\n") s

unfoldable pub change_color : (color_code : ℕ) → Screen → Screen
change_color color_code s =
    if not (is_below_zero color_code) && leb color_code 255
    then put_string (codes "\nText color changed.\n") (set_color color_code s)
    else put_string (codes "\nInvalid color code! Use a value between 0 and 255.\n") s

-- `buffer` is what the local array of `put_int` holds at first.
unfoldable pub clear_given_row : (buffer : ℕ → ℕ) → (row : ℕ) → Screen → Option Screen
unfolding put_int
clear_given_row buffer row s =
    if not (is_below_zero row) && ltb row vga_height
    then some (put_string (codes "\nRow cleared.\n") (clear_row (pos row) s))
    else elim (put_int buffer (vga_height - 1)
        (put_string (codes "\nInvalid row number! Use a value between 0 and ") s)) [
          | none ↦ none
          | some s' ↦ some (put_string (codes ".\n") s')
        ]

abbrev pub returns : Option Screen → Option (Bool × Screen)
returns none = none
returns (some s) = some (true, s)

-- Whether the command returns, and the screen. `exit` does not return: it ends in an endless loop.
unfoldable pub execute_command :
    (buffer : ℕ → ℕ) → (input : List ℕ) → Screen → Option (Bool × Screen)
unfolding strcmp strncmp show_help change_color clear_given_row
execute_command buffer input s =
    if is_zero (strcmp input (codes "help"))
    then some (true, show_help s)
    else if is_zero (strcmp input (codes "clear"))
    then some (true, clear_screen s)
    else if is_zero (strncmp input (codes "echo ") 5)
    then some
        (true, put_string (codes "\n") (put_string (drop 5 input) (put_string (codes "\n") s)))
    else if is_zero (strncmp input (codes "color ") 6)
    then some (true, change_color (atoi (drop 6 input)) s)
    else if is_zero (strcmp input (codes "scroll"))
    then some (true, scroll_screen (put_string (codes "\nScrolling the screen...\n") s))
    else if is_zero (strncmp input (codes "clearrow ") 9)
    then returns (clear_given_row buffer (atoi (drop 9 input)) s)
    else if is_zero (strcmp input (codes "exit"))
    then some (false, put_string (codes "\nExiting Enhanced Shell. Goodbye!\n") s)
    else some (
      true,
      put_string (codes "\nType 'help' for a list of commands.\n")
          (put_string input (put_string (codes "\nUnknown command: ") s)),
    )
