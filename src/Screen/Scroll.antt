-- ===== src/Screen/Scroll.antt =====
-- What is on the screen behind `kclear_screen` and `kscroll_display`.
use janus.Base.{
  ℕ, zero, suc, ◌+◌, ◌-◌, ◌*◌, ◌%◌, ◌≤◌, ◌<◌, ◌≡◌, refl, ◌∙◌, ap, ◌==◌, if◌then◌else◌, ltb, arith,
  Bool-cases, inl, inr,
}
use janus.Base.Int.{pos}
use janus.Memory.{Mem, store}
use janus.Screen.{
  Screen, show_cursor, set_cursor_position, blanks, kclear_screen, copies, kscroll_display, up,
}

copies-below : (n k : ℕ) (m : Mem) (j : ℕ) → j < k → copies n k m j ≡ m j
unfolding copies store
copies-below zero k m j h = refl
copies-below (suc n) k m j h = ground (arith, copies-below n (k + 1) (store m k (m (k + 160))) j)

copies-in : (n k : ℕ) (m : Mem) (j : ℕ) → k ≤ j → j < k + n → copies n k m j ≡ m (j + 160) % 256
unfolding copies store
copies-in zero k m j h l = absurd (omega (arith, h, l))
copies-in (suc n) k m j h l = elim (Bool-cases (j == k)) [
  | inl e ↦ ground (arith, copies-below n (k + 1) (store m k (m (k + 160))) j)
  | inr e ↦ ground (arith, copies-in n (k + 1) (store m k (m (k + 160))) j)
]

blanks-below : (n k : ℕ) (m : Mem) (j : ℕ) → j < k → blanks n k m j ≡ m j
unfolding blanks store
blanks-below zero k m j h = refl
blanks-below (suc n) k m j h =
    ground (arith, blanks-below n (k + 2) (store (store m k 32) (k + 1) 0) j)

blanks-chars : (n k : ℕ) (m : Mem) (j : ℕ) → j < n → blanks n k m (k + 2 * j) ≡ 32
unfolding blanks store
blanks-chars zero k m j l = absurd (omega (arith, l))
blanks-chars (suc n) k m zero l =
    ground (arith, blanks-below n (k + 2) (store (store m k 32) (k + 1) 0) (k + 2 * 0))
blanks-chars (suc n) k m (suc j) l =
    ap (blanks n (k + 2) (store (store m k 32) (k + 1) 0)) (omega arith)
    ∙ blanks-chars n (k + 2) (store (store m k 32) (k + 1) 0) j (omega (arith, l))

-- Behind `kclear_screen` each of the 2,000 characters is a space, and the cursor is in row 0.
kclear_screen_lem :
    (s : Screen) (j : ℕ)
    → j < 2000
    → ((kclear_screen s).vidmem (2 * j) ≡ 32) × ((kclear_screen s).cursor_y ≡ 0)
unfolding kclear_screen
kclear_screen_lem s j h = (
  (let e : 2 * j ≡ 0 + 2 * j = omega arith in
      ap (blanks 2000 0 s.vidmem) e ∙ blanks-chars 2000 0 s.vidmem j h),
  refl,
)

-- The characters behind the cursor has moved.
show_cursor-chars : (s : Screen) (x y j : ℕ) → (show_cursor s x y).vidmem (2 * j) ≡ s.vidmem (2 * j)
unfolding show_cursor store
show_cursor-chars s x y j = ground arith

set_cursor_position-row :
    (s : Screen) (y j : ℕ)
    → y ≤ 26
    → ((set_cursor_position s (pos 0) (up y)).vidmem (2 * j) ≡ s.vidmem (2 * j))
      × ((set_cursor_position s (pos 0) (up y)).cursor_y ≡ y - 1)
unfolding set_cursor_position show_cursor store
set_cursor_position-row s zero j h = (ground arith, refl)
set_cursor_position-row s (suc y) j h = (ground arith, ground arith)

-- The screen behind both loops.
scrolled :
    (m : Mem) (row col : ℕ)
    → row < 25
    → col < 80
    → blanks 80 3840 (copies 3841 0 m) (2 * (row * 80 + col))
      ≡ (if ltb row 24 then m (2 * ((row + 1) * 80 + col)) % 256 else 32)
scrolled m row col hr hc = elim (Bool-cases (ltb row 24)) [
  | inl e ↦
      let lt : row < 24 = ground arith in
      let at : 2 * (row * 80 + col) + 160 ≡ 2 * ((row + 1) * 80 + col) = omega arith in
      rw e (
        blanks-below 80 3840 (copies 3841 0 m) (2 * (row * 80 + col)) (omega (arith, lt, hc))
        ∙ copies-in 3841 0 m (2 * (row * 80 + col)) (omega arith) (omega (arith, lt, hc))
        ∙ ap (λ p. m p % 256) at)
  | inr e ↦
      let is : row ≡ 24 = ground arith in
      let at : 2 * (row * 80 + col) ≡ 3840 + 2 * col = omega (arith, is) in
      rw e
        (ap (blanks 80 3840 (copies 3841 0 m)) at ∙ blanks-chars 80 3840 (copies 3841 0 m) col hc)
]

-- From a cursor in row 25 or above it `kscroll_display` moves each of the 24 lower rows of
-- characters up by one, blanks the last row, and takes the cursor one row up.
pub kscroll_display_lem :
    (s : Screen) (row col : ℕ)
    → row < 25
    → col < 80
    → s.cursor_y ≤ 25
    → ((kscroll_display s).vidmem (2 * (row * 80 + col))
        ≡ (if ltb row 24 then s.vidmem (2 * ((row + 1) * 80 + col)) % 256 else 32))
      × ((kscroll_display s).cursor_y ≡ s.cursor_y - 1)
unfolding kscroll_display
kscroll_display_lem s row col hr hc hy =
    let moved = copies 3841 0 s.vidmem in
    let m = blanks 80 3840 moved in
    let j = row * 80 + col in
    let (same, cy) =
      set_cursor_position-row (record s { vidmem = m }) s.cursor_y j (omega (arith, hy)) in
    (same ∙ scrolled s.vidmem row col hr hc, cy)

-- `set_cursor_position` takes row 25, one below the screen, as it is: it writes WHITE behind the
-- 4,000 bytes of the screen.
set_cursor_position-below :
    (s : Screen) (x : ℕ)
    → x < 80
    → ((set_cursor_position s (pos x) (pos 25)).vidmem (4000 + (2 * x + 1)) ≡ 15)
      × ((set_cursor_position s (pos x) (pos 25)).cursor_y ≡ 25)
unfolding set_cursor_position show_cursor store
set_cursor_position-below s x h = (ground arith, ground arith)
