-- ===== src/Console/Cursor.antt =====
-- The offset that `kprintf` writes at and the cursor.
use janus.Base.{
  false, some, refl, ℕ, ◌+◌, ◌*◌, ◌≤◌, ◌<◌, ◌≡◌, ◌≢◌, List, [], ◌∷◌, ◌==◌, arith, Bool-cases, inl,
  inr,
}
use janus.Memory.{store}
use janus.Screen.{Screen, kscroll_display}
use janus.Screen.Cursor.{cursor_x-set, cursor_y-set, cursor_x-scroll, cursor-next}
use janus.Screen.Scroll.{kscroll_display_lem}
use janus.Printf.{Arg, vsnprintf}
use janus.Console.{kprintf, Writer, offset, newline, put_at, put_char, put_string}

-- The next character goes where the cursor is, and that is on the screen or at the start of the
-- row behind the last.
abbrev pub InStep : Writer → Type 0
InStep w =
    (w.i ≡ offset w.screen)
    × (w.screen.cursor_x < 80)
    × (w.screen.cursor_y * 80 + w.screen.cursor_x ≤ 2000)

put_at-InStep :
    (s : Screen) (i c : ℕ)
    → i ≡ offset s
    → s.cursor_x < 80
    → s.cursor_y ≤ 24
    → InStep (put_at s i c)
unfolding put_at
put_at-InStep s i c e hx hy =
    let (x, next) =
      cursor-next (record s { vidmem = store (store s.vidmem i c) (i + 1) 15 }) hx hy in
    (omega (arith, e, next), omega (arith, x), omega (arith, next, hx, hy))

newline-InStep : (w : Writer) → InStep w → InStep (newline w)
unfolding newline
newline-InStep w (e, hx, hy) = elim (Bool-cases (w.screen.cursor_y == 25)) [
  | inl last ↦
      let is : w.screen.cursor_y ≡ 25 = ground arith in
      let (m, y) =
        kscroll_display_lem w.screen 0 0 (omega arith) (omega arith) (omega (arith, is)) in
      let x = cursor_x-scroll w.screen in
      rw last (omega (arith, x, y), omega (arith, x), omega (arith, x, y, is))
  | inr more ↦
      let lt : w.screen.cursor_y ≤ 24 = ground arith in
      let x = cursor_x-set w.screen 0 (w.screen.cursor_y + 1) in
      let y =
        cursor_y-set w.screen 0 (w.screen.cursor_y + 1) (omega (arith, lt)) (omega arith)
          (λ z. absurd (omega (arith, z))) in
      rw more (omega (arith, x, y), omega (arith, x), omega (arith, x, y, lt))
]

put_char-InStep : (w : Writer) (c : ℕ) → InStep w → InStep (put_char w c)
unfolding put_char
put_char-InStep w c (e, hx, hy) = elim (Bool-cases (w.i == 4000)) [
  | inl full ↦
      let is : w.i ≡ 4000 = ground arith in
      let (m, y) =
        kscroll_display_lem w.screen 0 0 (omega arith) (omega arith) (omega (arith, is, e, hx)) in
      let x = cursor_x-scroll w.screen in
      rw full (
        put_at-InStep (kscroll_display w.screen) 3840 c (omega (arith, x, y, is, e, hx))
          (omega (arith, x)) (omega (arith, y, is, e, hx)))
  | inr room ↦
      let not_full : w.i ≢ 4000 = ground arith in
      rw room (put_at-InStep w.screen w.i c e hx (omega (arith, e, hx, hy, not_full)))
]

-- Whatever `kprintf` writes: the next character always goes where the cursor is, and the cursor
-- stays on the screen or at the start of the row behind it, where the next character scrolls.
pub put_string-InStep : (cs : List ℕ) (w : Writer) → InStep w → InStep (put_string w cs)
unfolding put_string
put_string-InStep [] w h = h
put_string-InStep (c ∷ cs) w h = elim (Bool-cases (c == 10)) [
  | inl e ↦ rw e (put_string-InStep cs (newline w) (newline-InStep w h))
  | inr e ↦ rw e (put_string-InStep cs (put_char w c) (put_char-InStep w c h))
]

-- A character printed inside a row moves the cursor on by one.
put_one :
    (s : Screen) (c : ℕ)
    → c ≢ 10
    → s.cursor_x < 79
    → s.cursor_y ≤ 24
    → (let t = (put_string (record { screen = s; i = offset s }) (c ∷ [])).screen in
        (t.cursor_x ≡ s.cursor_x + 1) × (t.cursor_y ≡ s.cursor_y))
unfolding put_string put_char put_at
put_one s c ne hx hy =
    let m = store (store s.vidmem (offset s) c) (offset s + 1) 15 in
    let plain_char : (c == 10) ≡ false = ground arith in
    let inside : (offset s == 4000) ≡ false = ground (arith, hx, hy) in
    let x = cursor_x-set (record s { vidmem = m }) (s.cursor_x + 1) s.cursor_y in
    let y =
      cursor_y-set (record s { vidmem = m }) (s.cursor_x + 1) s.cursor_y (omega (arith, hy))
        (omega (arith, hx)) (λ z. hy) in
    rw (plain_char, inside) (ground (arith, x, hx), ground (arith, y, hx))

-- The same of `kprintf`, of a format and arguments that come to one character.
pub kprintf_one :
    (s : Screen) (fmt : List ℕ) (args : List Arg) (c : ℕ)
    → vsnprintf fmt args ≡ some (c ∷ [], 1)
    → c ≢ 10
    → s.cursor_x < 79
    → s.cursor_y ≤ 24
    → (t : Screen) × (kprintf s fmt args ≡ some (t, 1))
      × (t.cursor_x ≡ s.cursor_x + 1)
      × (t.cursor_y ≡ s.cursor_y)
unfolding kprintf
kprintf_one s fmt args c e ne hx hy =
    let (x, y) = put_one s c ne hx hy in
    ((put_string (record { screen = s; i = offset s }) (c ∷ [])).screen, rw e refl, x, y)
