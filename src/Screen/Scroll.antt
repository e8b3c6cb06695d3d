-- ===== src/Screen/Scroll.antt =====
-- What clearing and scrolling leave in the buffer.
use my_os.Base.{
  ℕ, zero, suc, ◌+◌, ◌-◌, ◌*◌, ◌≤◌, ◌≡◌, refl, Bool, false, ◌&&◌, arith, ltb, leb, if◌then◌else◌,
}
use my_os.Base.Masks.{update}
use my_os.Base.Int.{ℤ, pos, negsuc}
use my_os.Screen.{
  Letter, Screen, empty_letter, vga_width, vga_max_chars, blank, clear_screen, clear_row, copy_row,
  copy_rows, scroll_screen,
}

-- Cell `k` stands in row `row` of the screen.
unfoldable pub in_row : ℤ → ℕ → Bool
in_row (pos r) k = ltb r 25 && (leb (r * 80) k && ltb k (r * 80 + 80))
in_row (negsuc r) k = false

pub blank-eq :
    (n from i : ℕ) (v : ℕ → Letter) (k : ℕ)
    → blank n from i v k ≡ (if leb (from + i) k && ltb k (from + i + n) then empty_letter else v k)
unfolding blank
blank-eq zero from i v k = ground arith
blank-eq (suc n) from i v k =
    ground (arith, blank-eq n from (i + 1) (update v (from + i) empty_letter) k)

-- Row `row - 1` takes what stands one row, 80 cells, further on.
copy_row-eq :
    (n row col : ℕ) (v : ℕ → Letter) (k : ℕ)
    → 1 ≤ row
    → col + n ≤ 80
    → copy_row n row col v k ≡ (
        if leb ((row - 1) * 80 + col) k && ltb k ((row - 1) * 80 + col + n)
        then v (k + 80)
        else v k)
unfolding copy_row
copy_row-eq zero row col v k low h = ground arith
copy_row-eq (suc n) row col v k low h =
    ground
      (arith, copy_row-eq n row (col + 1) (update v ((row - 1) * 80 + col) (v (row * 80 + col))) k)

copy_rows-eq :
    (n row : ℕ) (v : ℕ → Letter) (k : ℕ)
    → 1 ≤ row
    → copy_rows n row v k
      ≡ (if leb ((row - 1) * 80) k && ltb k ((row - 1 + n) * 80) then v (k + 80) else v k)
unfolding copy_rows
copy_rows-eq zero row v k low = ground arith
copy_rows-eq (suc n) row v k low = ground (
  arith,
  copy_rows-eq n (row + 1) (copy_row vga_width row 0 v) k,
  copy_row-eq 80 row 0 v k,
  copy_row-eq 80 row 0 v (k + 80),
)

-- `clear_screen` blanks the 2000 cells of the buffer and no other, and puts the cursor at the start.
pub clear_screen-blanks :
    (s : Screen) (k : ℕ)
    → ((clear_screen s).video_memory k
        ≡ (if ltb k vga_max_chars then empty_letter else s.video_memory k))
      × ((clear_screen s).pos_on_screen ≡ 0)
      × ((clear_screen s).color ≡ s.color)
unfolding clear_screen
clear_screen-blanks s k = (ground (arith, blank-eq 2000 0 0 s.video_memory k), refl, refl)

-- `clear_row` blanks the 80 cells of a row from 0 to 24 and nothing else; of any other row number,
-- negative ones included, it changes nothing.
pub clear_row-blanks :
    (row : ℤ) (s : Screen) (k : ℕ)
    → ((clear_row row s).video_memory k ≡ (if in_row row k then empty_letter else s.video_memory k))
      × ((clear_row row s).pos_on_screen ≡ s.pos_on_screen)
unfolding clear_row in_row
clear_row-blanks (pos r) s k =
    (ground (arith, blank-eq 80 (r * 80) 0 s.video_memory k), ground arith)
clear_row-blanks (negsuc r) s k = (ground arith, ground arith)

-- `scroll_screen` moves each row up by one, blanks the last row, leaves the cells outside the buffer
-- as they are, and puts the cursor at the start of the last row.
pub scroll_screen-moves :
    (s : Screen) (k : ℕ)
    → ((scroll_screen s).video_memory k ≡ (
        if ltb k 1920
        then s.video_memory (k + 80)
        else if ltb k 2000
        then empty_letter
        else s.video_memory k))
      × ((scroll_screen s).pos_on_screen ≡ 1920)
unfolding scroll_screen clear_row
scroll_screen-moves s k = (
  ground (
    arith,
    blank-eq 80 1920 0 (copy_rows 24 1 s.video_memory) k,
    copy_rows-eq 24 1 s.video_memory k,
  ),
  refl,
)
