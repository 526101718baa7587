-- ===== src/Console.antt =====
-- `kprintf` of src/kernel/kprintf.c: the formatted string goes to the screen. Its buffer of 100
-- bytes, which `vsnprintf` does not respect, is taken to be large enough.
pub mod Cursor
mod Tests
use janus.Base.{
  ℕ, zero, suc, ◌+◌, ◌-◌, ◌*◌, ◌%◌, Bool, true, false, Option, none, some, List, [], ◌∷◌, ◌++◌,
  ◌==◌, if◌then◌else◌, ◌>>=◌,
}
use janus.Base.Int.{ℤ, pos, negsuc}
use janus.Memory.{Mem, store}
use janus.Screen.{Screen, textmode_col, textmode_row, white, set_cursor_position, kscroll_display}
use janus.Printf.{Arg, vsnprintf}

-- The screen, and `i`, the offset that the next character goes to.
pub record Writer : Type 0 where
  pub screen : Screen
  pub i : ℕ

abbrev pub offset : Screen → ℕ
offset s = (s.cursor_y * textmode_col + s.cursor_x) * 2

pub newline : Writer → Writer
newline w =
    let s =
      if w.screen.cursor_y == textmode_row
      then kscroll_display w.screen
      else set_cursor_position w.screen (pos 0) (pos (w.screen.cursor_y + 1)) in
    record { screen = s; i = s.cursor_y * textmode_col * 2 }

-- Both bytes of a character, and the cursor behind it.
pub put_at : Screen → (i c : ℕ) → Writer
put_at s i c =
    let written = store (store s.vidmem i c) (i + 1) white in
    record {
      screen =
          set_cursor_position (record s { vidmem = written }) (pos (s.cursor_x + 1))
            (pos s.cursor_y);
      i = i + 2;
    }

pub put_char : Writer → (c : ℕ) → Writer
unfolding put_at
put_char w c =
    if w.i == textmode_row * textmode_col * 2
    then put_at (kscroll_display w.screen) ((textmode_row - 1) * textmode_col * 2) c
    else put_at w.screen w.i c

-- The loop over the buffer; 10 is the newline.
pub put_string : Writer → List ℕ → Writer
put_string w [] = w
put_string w (c ∷ cs) =
    let broken = put_string (newline w) cs in
    let written = put_string (put_char w c) cs in if c == 10 then broken else written

pub kprintf : Screen → (fmt : List ℕ) → List Arg → Option (Screen × ℕ)
kprintf s fmt args =
    vsnprintf fmt args
    >>= (λ r. some ((put_string (record { screen = s; i = offset s }) r.0).screen, r.1))
