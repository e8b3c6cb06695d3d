-- ===== src/Shell/Commands/Effects.antt =====
-- Which command a line is.
use my_os.Base.{ℕ, ◌≡◌, refl, Bool, true, false, Option, some, List, ◌++◌, if◌then◌else◌, arith}
use my_os.Screen.{Screen, clear_screen, scroll_screen, put_string}
use my_os.Std.CString.{strcmp, strncmp, char_diff, IsCString}
use my_os.Std.Stdlib.{atoi}
use my_os.Std.Stdio.Printf.{codes}
use my_os.Shell.Commands.{returns, show_help, change_color, clear_given_row, execute_command}

pub data Command : Type 0 where
  help : Command
  clear : Command
  echo : (text : List ℕ) → Command
  color : (num : List ℕ) → Command
  scroll : Command
  clearrow : (num : List ℕ) → Command
  exit : Command

abbrev pub line_of : Command → List ℕ
line_of help = codes "help"
line_of clear = codes "clear"
line_of (echo text) = codes "echo " ++ text
line_of (color num) = codes "color " ++ num
line_of scroll = codes "scroll"
line_of (clearrow num) = codes "clearrow " ++ num
line_of exit = codes "exit"

-- Whether the shell goes on, and the screen.
abbrev pub effect : (buffer : ℕ → ℕ) → Command → Screen → Option (Bool × Screen)
effect buffer help s = some (true, show_help s)
effect buffer clear s = some (true, clear_screen s)
effect buffer (echo text) s =
    some (true, put_string (codes "\n") (put_string text (put_string (codes "\n") s)))
effect buffer (color num) s = some (true, change_color (atoi num) s)
effect buffer scroll s =
    some (true, scroll_screen (put_string (codes "\nScrolling the screen...\n") s))
effect buffer (clearrow num) s = returns (clear_given_row buffer (atoi num) s)
effect buffer exit s = some (false, put_string (codes "\nExiting Enhanced Shell. Goodbye!\n") s)

-- `execute_command` of the line of a command, with any text after the name, has the effect of that
-- command.
pub execute_command-effect :
    (buffer : ℕ → ℕ) (c : Command) (s : Screen)
    → execute_command buffer (line_of c) s ≡ effect buffer c s
unfolding execute_command strcmp strncmp char_diff
execute_command-effect buffer help s = refl
execute_command-effect buffer clear s = refl
execute_command-effect buffer (echo text) s = refl
execute_command-effect buffer (color num) s = refl
execute_command-effect buffer scroll s = refl
execute_command-effect buffer (clearrow num) s = refl
execute_command-effect buffer exit s = refl

abbrev chain : (a b c d e f g : Bool) (x1 x2 x3 x4 x5 x6 x7 x8 : Screen) → Option (Bool × Screen)
chain a b c d e f g x1 x2 x3 x4 x5 x6 x7 x8 =
    if a
    then some (true, x1)
    else if b
    then some (true, x2)
    else if c
    then some (true, x3)
    else if d
    then some (true, x4)
    else if e
    then some (true, x5)
    else if f
    then some (true, x6)
    else if g
    then some (false, x7)
    else some (true, x8)

pub exit-IsCString : IsCString (codes "exit")
exit-IsCString = (
  (λ e. absurd (omega (arith, e)), omega arith),
  (
    (λ e. absurd (omega (arith, e)), omega arith),
    (
      (λ e. absurd (omega (arith, e)), omega arith),
      ((λ e. absurd (omega (arith, e)), omega arith), tt),
    ),
  ),
)
