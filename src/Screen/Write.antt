-- ===== src/Screen/Write.antt =====
-- What `put_char`, `put_string` and `move_cursor_back` do to the screen.
use my_os.Base.{
  ℕ, zero, suc, ◌+◌, ◌-◌, ◌≤◌, ◌<◌, ◌≡◌, refl, ◌≢◌, ◌∙◌, ◌%◌, ◌⊎◌, inl, inr, List, [], ◌∷◌, arith,
  ◌==◌, if◌then◌else◌, Bool-cases, ==→ne,
}
use my_os.Base.Masks.{update}
use my_os.Screen.{
  Screen, empty_letter, vga_max_chars, scroll_screen, put_char, put_string, back_from,
  move_cursor_back,
}
use my_os.Screen.Scroll.{scroll_screen-moves}

-- The cursor is on the screen or just past its end, and no cell outside it has changed since `s`.
pub record StaysOnScreen (s s' : Screen) : Type 0 where
  pub cursor : s'.pos_on_screen ≤ vga_max_chars
  pub outside : (k : ℕ) → vga_max_chars ≤ k → s'.video_memory k ≡ s.video_memory k

-- From any state, even one with the cursor far off the screen, `put_char` writes no cell outside the
-- buffer and leaves the cursor at most just past its end.
pub put_char-StaysOnScreen : (c : ℕ) (s : Screen) → StaysOnScreen s (put_char c s)
unfolding put_char
put_char-StaysOnScreen c s = record {
  cursor = ground (arith, scroll_screen-moves s 0);
  outside = λ k h. ground (arith, scroll_screen-moves s k);
}

put_string-StaysOnScreen :
    (str : List ℕ) (s : Screen)
    → s.pos_on_screen ≤ vga_max_chars
    → StaysOnScreen s (put_string str s)
unfolding put_string
put_string-StaysOnScreen [] s h = record { cursor = h; outside = λ k lt. refl }
put_string-StaysOnScreen (c ∷ str) s h =
    let one = put_char-StaysOnScreen c s in
    let rest = put_string-StaysOnScreen str (put_char c s) one.cursor in
    record { cursor = rest.cursor; outside = λ k lt. rest.outside k lt ∙ one.outside k lt }

-- With room on the screen, a character other than a newline goes with the current colour to the
-- cursor's cell, no other cell changes, and the cursor moves on by one. A newline changes no cell
-- and moves the cursor to the start of the next row.
pub put_char_lem :
    (c : ℕ) (s : Screen)
    → s.pos_on_screen < vga_max_chars
    → put_char c s ≡ (
        if c == b'\n'
        then record s { pos_on_screen = s.pos_on_screen - s.pos_on_screen % 80 + 80 }
        else record s {
          video_memory = λ k.
              if s.pos_on_screen == k then record { c = c; color = s.color } else s.video_memory k;
          pos_on_screen = s.pos_on_screen + 1;
        })
unfolding put_char
put_char_lem c s h = ground arith

-- On a full screen `put_char` first scrolls, and then goes on at the start of the last row.
pub put_char-scroll :
    (c : ℕ) (s : Screen)
    → vga_max_chars ≤ s.pos_on_screen
    → put_char c s ≡ put_char c (scroll_screen s)
unfolding put_char
put_char-scroll c s h = ground (arith, scroll_screen-moves s 0)

back_from-finds :
    (p : ℕ) (s : Screen)
    → (((k : ℕ) → k < p → (s.video_memory k).c ≡ 0)
        × (back_from p s ≡ record s { pos_on_screen = 0 }))
      ⊎ ((q : ℕ) × (q < p)
          × ((s.video_memory q).c ≢ 0)
          × ((k : ℕ) → q < k → k < p → (s.video_memory k).c ≡ 0)
          × (back_from p s ≡ record s {
            video_memory = update s.video_memory q empty_letter;
            pos_on_screen = q;
          }))
unfolding back_from
back_from-finds zero s = inl (λ k lt. absurd (omega arith), refl)
back_from-finds (suc p) s = elim (Bool-cases ((s.video_memory p).c == 0)) [
  | inl skip ↦ elim (back_from-finds p s) [
    | inl (all, e) ↦ inl (λ k lt. ground (arith, all k), ground arith)
    | inr (q, lt, ne, between, e) ↦
        inr (q, omega arith, ne, λ k lo hi. ground (arith, between k), ground arith)
  ]
  | inr stop ↦ inr (p, omega arith, ==→ne _ 0 stop, λ k lo hi. absurd (omega arith), ground arith)
]

-- `move_cursor_back` goes back over cells that hold no character to the last one that does, blanks
-- it and stops there; if there is none, it goes to the start and changes no cell.
pub move_cursor_back-finds :
    (s : Screen)
    → (((k : ℕ) → k < s.pos_on_screen → (s.video_memory k).c ≡ 0)
        × (move_cursor_back s ≡ record s { pos_on_screen = 0 }))
      ⊎ ((q : ℕ) × (q < s.pos_on_screen)
          × ((s.video_memory q).c ≢ 0)
          × ((k : ℕ) → q < k → k < s.pos_on_screen → (s.video_memory k).c ≡ 0)
          × (move_cursor_back s ≡ record s {
            video_memory = update s.video_memory q empty_letter;
            pos_on_screen = q;
          }))
unfolding move_cursor_back
move_cursor_back-finds s = back_from-finds s.pos_on_screen s

-- After a printed character, other than NUL and newline, `move_cursor_back` returns the cursor to
-- where it was and blanks that cell alone.
pub move_cursor_back-put_char :
    (c : ℕ) (s : Screen)
    → s.pos_on_screen < vga_max_chars
    → c ≢ b'\n'
    → c ≢ 0
    → ((move_cursor_back (put_char c s)).pos_on_screen ≡ s.pos_on_screen)
      × ((k : ℕ)
          → (move_cursor_back (put_char c s)).video_memory k
            ≡ (if s.pos_on_screen == k then empty_letter else s.video_memory k))
unfolding move_cursor_back
move_cursor_back-put_char c s h nl nul =
    let t : Screen = record s {
      video_memory =
          λ k. if s.pos_on_screen == k then record { c = c; color = s.color } else s.video_memory k;
      pos_on_screen = suc s.pos_on_screen;
    } in
    let e : put_char c s ≡ t = ground (arith, put_char_lem c s h) in
    rw e (ground arith, λ k. ground arith)
