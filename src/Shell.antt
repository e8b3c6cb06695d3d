-- ===== src/Shell.antt =====
-- shell.c: reading a line of input. The characters come from the keyboard, oldest first; what is echoed
-- for an erased one is left out.
pub mod Line
pub mod Commands
mod Tests
use my_os.Base.{ℕ, zero, suc, ◌+◌, ◌-◌, Option, none, some, List, [], ◌∷◌, ltb, ◌==◌, if◌then◌else◌}
use my_os.Base.Masks.{update}

abbrev pub max_input_length : ℕ
max_input_length = 128

-- What one character other than Enter does to `index` and `input`.
unfoldable pub take_char : (c index : ℕ) → (ℕ → ℕ) → ℕ × (ℕ → ℕ)
take_char c index input =
    if c == 8
    then (if ltb 0 index then index - 1 else index, input)
    else if ltb index (max_input_length - 1)
    then (index + 1, update input index c)
    else (index, input)

-- The `do` loop and the NUL after it, with the characters left over; `none`: it waits for more.
unfoldable pub read_line : List ℕ → (index : ℕ) → (ℕ → ℕ) → Option (List ℕ × (ℕ → ℕ))
unfolding take_char
read_line [] index input = none
read_line (c ∷ typed) index input =
    let (index', input') = take_char c index input in
    let rest = read_line typed index' input' in
    if c == b'\n' then some (typed, update input index 0) else rest
