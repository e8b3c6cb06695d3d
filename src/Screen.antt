-- ===== src/Screen.antt =====
-- drivers/screen.c: the VGA text buffer, as a function from its indices to cells, with the cursor and
-- the colour. A C string is the list of its bytes before the NUL.
pub mod Scroll
pub mod Write
mod Tests
use my_os.Base.{
  ℕ, zero, suc, ◌+◌, ◌-◌, ◌*◌, ◌/◌, ◌%◌, ◌^◌, Bool, ◌||◌, List, [], ◌∷◌, ltb, leb, ◌==◌,
  if◌then◌else◌,
}
use my_os.Base.Int.{ℤ, pos, negsuc, ltb_ℤ, leb_ℤ, pos_part}
use my_os.Base.Masks.{update}

abbrev pub vga_width : ℕ
vga_width = 80

abbrev pub vga_height : ℕ
vga_height = 25

abbrev pub vga_max_chars : ℕ
vga_max_chars = vga_width * vga_height

abbrev pub white_on_black : ℕ
white_on_black = 0x07

pub record Letter : Type 0 where
  pub c : ℕ
  pub color : ℕ

abbrev pub empty_letter : Letter
empty_letter = record { c = 0; color = white_on_black }

pub record Screen : Type 0 where
  pub video_memory : ℕ → Letter
  pub pos_on_screen : ℕ
  pub color : ℕ

-- `for (i; rounds left; i++) video_memory[from + i] = EMPTY_LETTER;`
unfoldable pub blank : (rounds : ℕ) → ℕ → ℕ → (ℕ → Letter) → ℕ → Letter
blank zero from i v = v
blank (suc n) from i v = blank n from (i + 1) (update v (from + i) empty_letter)

unfoldable pub clear_screen : Screen → Screen
clear_screen s = record s {
  video_memory = blank vga_max_chars 0 0 s.video_memory;
  pos_on_screen = 0;
}

unfoldable pub clear_row : ℤ → Screen → Screen
clear_row row s =
    if ltb_ℤ row (pos 0) || leb_ℤ (pos vga_height) row
    then s
    else record s { video_memory = blank vga_width (pos_part row * vga_width) 0 s.video_memory }

-- The inner loop of `scroll_screen`, over the columns of one row.
unfoldable pub copy_row : (rounds : ℕ) → ℕ → ℕ → (ℕ → Letter) → ℕ → Letter
copy_row zero row col v = v
copy_row (suc n) row col v =
    copy_row n row (col + 1) (update v ((row - 1) * vga_width + col) (v (row * vga_width + col)))

-- The outer loop, from row `row` on.
unfoldable pub copy_rows : (rounds : ℕ) → ℕ → (ℕ → Letter) → ℕ → Letter
copy_rows zero row v = v
copy_rows (suc n) row v = copy_rows n (row + 1) (copy_row vga_width row 0 v)

unfoldable pub scroll_screen : Screen → Screen
scroll_screen s =
    let moved = record s { video_memory = copy_rows (vga_height - 1) 1 s.video_memory } in
    record (clear_row (pos (vga_height - 1)) moved) { pos_on_screen = (vga_height - 1) * vga_width }

-- What `put_char` does once there is room.
unfoldable pub place_char : ℕ → Screen → Screen
place_char c s =
    if c == b'\n'
    then record s { pos_on_screen = (s.pos_on_screen / vga_width + 1) * vga_width }
    else record s {
      video_memory = update s.video_memory s.pos_on_screen (record { c = c; color = s.color });
      pos_on_screen = s.pos_on_screen + 1;
    }

unfoldable pub put_char : ℕ → Screen → Screen
unfolding place_char
put_char c s = place_char c (if leb vga_max_chars s.pos_on_screen then scroll_screen s else s)

unfoldable pub put_string : List ℕ → Screen → Screen
put_string [] s = s
put_string (c ∷ str) s = put_string str (put_char c s)

unfoldable pub set_color : ℕ → Screen → Screen
set_color new_color s = record s { color = new_color }

unfoldable pub set_color_to_default : Screen → Screen
set_color_to_default s = record s { color = white_on_black }

-- The loop of `move_cursor_back`, at most `pos_on_screen` rounds.
unfoldable pub back_from : ℕ → Screen → Screen
back_from zero s = record s { pos_on_screen = 0 }
back_from (suc p) s =
    let rest = back_from p s in
    if (s.video_memory p).c == empty_letter.c
    then rest
    else record s { video_memory = update s.video_memory p empty_letter; pos_on_screen = p }

unfoldable pub move_cursor_back : Screen → Screen
unfolding back_from
move_cursor_back s = back_from s.pos_on_screen s
