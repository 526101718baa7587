-- ===== src/Screen.antt =====
-- drivers/video.c: the text screen. The video memory is `vidmem` by the offset from VIDEO_MEM, two
-- bytes for a character; the cursor is at `cursor_x`, `cursor_y`.
pub mod Scroll
pub mod Cursor
mod Tests
use janus.Base.{
  ℕ, zero, suc, ◌+◌, ◌-◌, ◌*◌, ◌/◌, ◌%◌, ◌≤◌, ◌<◌, Bool, true, false, ◌||◌, List, [], ◌∷◌, ◌++◌,
  ◌==◌, if◌then◌else◌, ltb, leb,
}
use janus.Base.Int.{ℤ, pos, negsuc, pos_part}
use janus.Memory.{Mem, store}
use janus.Io.{Trace, outb}

-- TEXTMODE_COL and TEXTMODE_ROW
abbrev pub textmode_col : ℕ
textmode_col = 80

abbrev pub textmode_row : ℕ
textmode_row = 25

-- BLACK and WHITE
abbrev pub black : ℕ
black = 0x00

abbrev pub white : ℕ
white = 0x0f

pub record Screen : Type 0 where
  pub vidmem : Mem
  pub cursor_x : ℕ
  pub cursor_y : ℕ
  pub trace : Trace

-- A row behind the last but one, or a negative one, is row 0.
abbrev pub row_of : ℤ → ℕ
row_of (pos y) = if ltb textmode_row y then 0 else y
row_of (negsuc y) = 0

abbrev pub next_row : ℤ → ℤ
next_row (pos y) = pos (y + 1)
next_row (negsuc zero) = pos 0
next_row (negsuc (suc y)) = negsuc y

abbrev pub at_end : ℤ → Bool
at_end (pos x) = x == textmode_col
at_end (negsuc x) = false

-- The end of `set_cursor_position`: both registers of the controller, and the attribute.
pub show_cursor : Screen → (x y : ℕ) → Screen
show_cursor s x y =
    let cursor_pos = y * textmode_col + x in
    record {
      vidmem = store s.vidmem (2 * cursor_pos + 1) white;
      cursor_x = x;
      cursor_y = y;
      trace =
          s.trace
          ++ outb 0x3d4 14
            ∷ outb 0x3d5 (cursor_pos / 256 % 256)
            ∷ outb 0x3d4 15
            ∷ outb 0x3d5 (cursor_pos % 256)
            ∷ [];
    }

pub set_cursor_position : Screen → (x y : ℤ) → Screen
unfolding show_cursor store
set_cursor_position s x y =
    if at_end x
    then show_cursor s 0 (row_of (next_row y))
    else show_cursor s (pos_part x) (row_of y)

-- A loop that writes a space and BLACK for each of `n` characters from offset `i` on.
pub blanks : (n i : ℕ) → Mem → Mem
unfolding store
blanks zero i m = m
blanks (suc n) i m = blanks n (i + 2) (store (store m i 32) (i + 1) black)

pub kclear_screen : Screen → Screen
kclear_screen s = record s {
  vidmem = blanks (textmode_col * textmode_row) 0 s.vidmem;
  cursor_x = 10;
  cursor_y = 0;
}

-- The loop that copies each byte from 2 * TEXTMODE_COL further on, for `n` bytes from `i` on.
pub copies : (n i : ℕ) → Mem → Mem
unfolding store
copies zero i m = m
copies (suc n) i m = copies n (i + 1) (store m i (m (i + 2 * textmode_col)))

-- y - 1
abbrev pub up : ℕ → ℤ
up zero = negsuc 0
up (suc y) = pos y

pub kscroll_display : Screen → Screen
kscroll_display s =
    let moved = copies (textmode_col * (textmode_row - 1) * 2 + 1) 0 s.vidmem in
    let m = blanks textmode_col ((textmode_row - 1) * textmode_col * 2) moved in
    set_cursor_position (record s { vidmem = m }) (pos 0) (up s.cursor_y)
