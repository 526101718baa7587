-- ===== src/Shell/Echo.antt =====
-- What `getline` and `print_prompt` of src/utils/shell.c show of the keys typed: the calls of
-- drivers/video.c and src/kernel/kprintf.c beside the editing of the line.
use janus.Base.{
  ℕ, suc, ◌+◌, ◌-◌, ◌≤◌, ◌<◌, ◌≡◌, ◌≢◌, refl, ◌∙◌, Option, none, some, List, [], ◌∷◌, ◌==◌,
  if◌then◌else◌, ltb, ◌>>=◌, false, arith, ◌⊎◌, inl, inr, subst, sym, ◌++◌, length, length-append,
  Bool-cases,
}
use janus.Base.Int.{pos}
use janus.Shell.{but_last, edit}
use janus.Screen.{Screen, set_cursor_position}
use janus.Screen.Cursor.{cursor_x-set, cursor_y-set}
use janus.Printf.{word}
use janus.Printf.Single.{vsnprintf-blank, vsnprintf-char}
use janus.Console.{kprintf}
use janus.Console.Cursor.{kprintf_one}

-- PROMPT_LEN
abbrev pub prompt_len : ℕ
prompt_len = 8

-- One column back, but not before the end of the prompt.
pub step_back : Screen → Screen
step_back s =
    set_cursor_position s
      (pos (if ltb s.cursor_x (prompt_len + 1) then prompt_len else s.cursor_x - 1))
      (pos s.cursor_y)

-- A key that is not ENTER: BACKSPACE is 8, and blanks the character before the cursor.
pub echo_key : Screen → (ch : ℕ) → Option Screen
unfolding step_back
echo_key s ch =
    let erased = kprintf (step_back s) (32 ∷ []) [] >>= (λ r. some (step_back r.0)) in
    let shown = kprintf s (37 ∷ 99 ∷ []) (word ch ∷ []) >>= (λ r. some r.0) in
    if ch == 8 then erased else shown

-- The keys up to ENTER, 10, which moves the cursor to the next row; `none` is that they end first.
pub echo : Screen → (keys : List ℕ) → Option Screen
unfolding echo_key
echo s [] = none
echo s (k ∷ ks) =
    let later = echo_key s k >>= (λ t. echo t ks) in
    if k == 10 then some (record s { cursor_x = 0; cursor_y = s.cursor_y + 1 }) else later

-- The cursor at the start of its row, and "janus86>".
pub print_prompt : Screen → Option Screen
print_prompt s =
    kprintf (set_cursor_position (record s { cursor_x = 0 }) (pos 0) (pos s.cursor_y))
      (106 ∷ 97 ∷ 110 ∷ 117 ∷ 115 ∷ 56 ∷ 54 ∷ 62 ∷ []) []
    >>= (λ r. some r.0)

-- The cursor is at that place.
abbrev pub At : Screen → (x y : ℕ) → Type 0
At s x y = (s.cursor_x ≡ x) × (s.cursor_y ≡ y)

step_back-At :
    (s : Screen) (x y : ℕ) → At s (suc x) y → 8 ≤ x → x < 79 → y ≤ 24 → At (step_back s) x y
unfolding step_back
step_back-At s x y (ex, ey) lo hx hy =
    let v = if ltb s.cursor_x (prompt_len + 1) then prompt_len else s.cursor_x - 1 in
    let e : v ≡ x = ground (arith, ex, lo) in
    let cx = cursor_x-set s v s.cursor_y in
    let cy =
      cursor_y-set s v s.cursor_y (omega (arith, ey, hy)) (omega (arith, e, hx))
        (λ z. omega (arith, ey, hy)) in
    (ground (arith, cx, e, hx), ground (arith, cy, e, hx, ey))

-- A printable key moves the cursor on by one.
echo_key-At :
    (s : Screen) (k x y : ℕ)
    → At s x y
    → 10 < k
    → k < 256
    → x < 79
    → y ≤ 24
    → (t : Screen) × (echo_key s k ≡ some t) × At t (suc x) y
unfolding echo_key
echo_key-At s k x y (ex, ey) lo hi hx hy =
    let (t, run, tx, ty) =
      kprintf_one s (37 ∷ 99 ∷ []) (word k ∷ []) k (vsnprintf-char k (omega (arith, lo)) hi)
        (omega (arith, lo)) (omega (arith, ex, hx)) (omega (arith, ey, hy)) in
    let other : (k == 8) ≡ false = ground (arith, lo) in
    (t, rw (other, run) refl, (omega (arith, tx, ex), ty ∙ ey))

-- BACKSPACE behind the prompt moves it back by one.
backspace-At :
    (s : Screen) (x y : ℕ)
    → At s (suc x) y
    → 8 ≤ x
    → x < 78
    → y ≤ 24
    → (t : Screen) × (echo_key s 8 ≡ some t) × At t x y
unfolding echo_key
backspace-At s x y a lo hx hy =
    let back = step_back-At s x y a lo (omega (arith, hx)) hy in
    let (bx, by_) = back in
    let (t, run, tx, ty) =
      kprintf_one (step_back s) (32 ∷ []) [] 32 vsnprintf-blank (λ e. omega (arith, e))
        (omega (arith, bx, hx)) (omega (arith, by_, hy)) in
    (
      step_back t,
      rw run refl,
      step_back-At t x y (omega (arith, tx, bx), ty ∙ by_) lo (omega (arith, hx)) hy,
    )

-- At the end of the prompt BACKSPACE moves nothing.
step_back_prompt : (s : Screen) (y : ℕ) → At s 8 y → y ≤ 24 → At (step_back s) 8 y
unfolding step_back
step_back_prompt s y (ex, ey) hy =
    let v = if ltb s.cursor_x (prompt_len + 1) then prompt_len else s.cursor_x - 1 in
    let e : v ≡ 8 = ground (arith, ex) in
    let cx = cursor_x-set s v s.cursor_y in
    let cy =
      cursor_y-set s v s.cursor_y (omega (arith, ey, hy)) (omega (arith, e))
        (λ z. omega (arith, ey, hy)) in
    (ground (arith, cx, e), ground (arith, cy, e, ey))

backspace_prompt :
    (s : Screen) (y : ℕ) → At s 8 y → y ≤ 24 → (t : Screen) × (echo_key s 8 ≡ some t) × At t 8 y
unfolding echo_key
backspace_prompt s y a hy =
    let (bx, by_) = step_back_prompt s y a hy in
    let (t, run, tx, ty) =
      kprintf_one (step_back s) (32 ∷ []) [] 32 vsnprintf-blank (λ e. omega (arith, e))
        (omega (arith, bx)) (omega (arith, by_, hy)) in
    (
      step_back t,
      rw run refl,
      step_back-At t 8 y (omega (arith, tx, bx), ty ∙ by_) (omega arith) (omega arith) hy,
    )

-- Each key is BACKSPACE or prints.
abbrev pub Shown : List ℕ → Type 0
Shown [] = Unit
Shown (k ∷ ks) = ((k ≡ 8) ⊎ ((10 < k) × (k < 256))) × Shown ks

-- The line after one key.
abbrev key_line : List ℕ → (k : ℕ) → List ℕ
key_line l k = if k == 8 then but_last l else l ++ k ∷ []

length-but_last : (l : List ℕ) → length (but_last l) ≡ length l - 1
unfolding but_last
length-but_last [] = omega arith
length-but_last (c ∷ []) = omega arith
length-but_last (c ∷ d ∷ l) = omega (arith, length-but_last (d ∷ l))

edit_key : (l ks : List ℕ) (k : ℕ) → k ≢ 10 → edit l (k ∷ ks) ≡ edit (key_line l k) ks
unfolding edit
edit_key l ks k ne =
    let other : (k == 10) ≡ false = ground arith in
    elim (Bool-cases (k == 8)) [ inl e ↦ rw (other, e) refl | inr e ↦ rw (other, e) refl ]

echo_rest :
    (s t : Screen) (ks : List ℕ) (k : ℕ)
    → k ≢ 10
    → echo_key s k ≡ some t
    → echo s (k ∷ ks) ≡ echo t ks
unfolding echo
echo_rest s t ks k ne e = let other : (k == 10) ≡ false = ground arith in rw (other, e) refl

-- One key: the cursor stays behind the line.
one_key :
    (s : Screen) (l : List ℕ) (k y : ℕ)
    → At s (8 + length l) y
    → (k ≡ 8) ⊎ ((10 < k) × (k < 256))
    → length l < 70
    → y ≤ 24
    → (t : Screen) × (echo_key s k ≡ some t) × At t (8 + length (key_line l k)) y
unfolding but_last
one_key s [] k y a (inl e) lt hy =
    subst (λ x. (t : Screen) × (echo_key s x ≡ some t) × At t (8 + length (key_line [] x)) y)
      (sym e) (backspace_prompt s y a hy)
one_key s (c ∷ l) k y a (inl e) lt hy =
    let len = length-but_last (c ∷ l) in
    let (t, run, at_t) =
      backspace-At s (8 + length l) y (a.0 ∙ omega arith, a.1) (omega arith) (omega (arith, lt))
        hy in
    subst (λ x. (u : Screen) × (echo_key s x ≡ some u) × At u (8 + length (key_line (c ∷ l) x)) y)
      (sym e) (t, run, (omega (arith, at_t.0, len), at_t.1))
one_key s l k y a (inr (lo, hi)) lt hy =
    let (t, run, at_t) = echo_key-At s k (8 + length l) y a lo hi (omega (arith, lt)) hy in
    let other : (k == 8) ≡ false = ground (arith, lo) in
    let len = length-append l (k ∷ []) in (t, run, (rw other (omega (arith, at_t.0, len)), at_t.1))

not_enter : (k : ℕ) → (k ≡ 8) ⊎ ((10 < k) × (k < 256)) → k ≢ 10
not_enter k (inl e) z = omega (arith, e, z)
not_enter k (inr (lo, hi)) z = omega (arith, lo, z)

key_line-short : (l : List ℕ) (k : ℕ) → length (key_line l k) ≤ suc (length l)
key_line-short l k = elim (Bool-cases (k == 8)) [
  | inl e ↦ rw e (omega (arith, length-but_last l))
  | inr e ↦ rw e (omega (arith, length-append l (k ∷ [])))
]

-- Printable keys and BACKSPACE in any order, typed behind the prompt and the line so far, at most 70
-- with that, in one of the 25 rows: the screen and the line each go on from a state behind these
-- keys, in which the cursor stands right behind the line as `getline` has it.
pub echo-edit :
    (keys : List ℕ) (s : Screen) (l : List ℕ) (y : ℕ)
    → Shown keys
    → At s (8 + length l) y
    → length l + length keys ≤ 70
    → y ≤ 24
    → (t : Screen) × (line : List ℕ) × ((ks : List ℕ) → echo s (keys ++ ks) ≡ echo t ks)
      × ((ks : List ℕ) → edit l (keys ++ ks) ≡ edit line ks)
      × At t (8 + length line) y
echo-edit [] s l y sh a le hy = (s, l, λ ks. refl, λ ks. refl, a)
echo-edit (k ∷ keys) s l y (sh, r) a le hy =
    let ne : k ≢ 10 = not_enter k sh in
    let (t, run, at_t) = one_key s l k y a sh (omega (arith, le)) hy in
    let (u, line, shows, edits, at_u) =
      echo-edit keys t (key_line l k) y r at_t (omega (arith, le, key_line-short l k)) hy in
    (
      u,
      line,
      λ ks. echo_rest s t (keys ++ ks) k ne run ∙ shows ks,
      λ ks. edit_key l (keys ++ ks) k ne ∙ edits ks,
      at_u,
    )
