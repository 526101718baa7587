-- ===== src/Screen/Cursor.antt =====
-- Where the functions of the screen leave the cursor.
use janus.Base.{ℕ, zero, suc, ◌+◌, ◌*◌, ◌≤◌, ◌<◌, ◌≡◌, refl, ◌==◌, if◌then◌else◌, arith}
use janus.Base.Int.{pos}
use janus.Screen.{Screen, show_cursor, set_cursor_position, kscroll_display, up}

pub cursor_x-set :
    (s : Screen) (x y : ℕ)
    → (set_cursor_position s (pos x) (pos y)).cursor_x ≡ (if x == 80 then 0 else x)
unfolding set_cursor_position show_cursor
cursor_x-set s x y = ground arith

pub cursor_y-set :
    (s : Screen) (x y : ℕ)
    → y ≤ 25
    → x ≤ 80
    → (x ≡ 80 → y ≤ 24)
    → (set_cursor_position s (pos x) (pos y)).cursor_y ≡ (if x == 80 then y + 1 else y)
unfolding set_cursor_position show_cursor
cursor_y-set s x y h l e = ground arith

first_column : (y : ℕ) (t : Screen) → (set_cursor_position t (pos 0) (up y)).cursor_x ≡ 0
unfolding set_cursor_position show_cursor
first_column zero t = refl
first_column (suc y) t = refl

pub cursor_x-scroll : (s : Screen) → (kscroll_display s).cursor_x ≡ 0
unfolding kscroll_display
cursor_x-scroll s = first_column s.cursor_y _

-- Inside a row the cursor moves on; from its end it goes to the next.
pub cursor-next :
    (s : Screen)
    → s.cursor_x < 80
    → s.cursor_y ≤ 24
    → let s' = set_cursor_position s (pos (s.cursor_x + 1)) (pos s.cursor_y) in
      (s'.cursor_x < 80) × (s'.cursor_y * 80 + s'.cursor_x ≡ s.cursor_y * 80 + s.cursor_x + 1)
cursor-next s hx hy =
    let x = cursor_x-set s (s.cursor_x + 1) s.cursor_y in
    let y = cursor_y-set s (s.cursor_x + 1) s.cursor_y (omega arith) (omega arith) (λ e. hy) in
    (ground (arith, x), ground (arith, x, y))
