-- ===== src/Shell/Editor.antt =====
-- Typing mistakes and taking them back.
use janus.Base.{
  ℕ, zero, suc, ◌≡◌, ◌≢◌, refl, sym, ◌∙◌, ap, false, some, List, [], ◌∷◌, ◌++◌, ◌==◌, length,
  replicate, arith, append-nil,
}
use janus.Shell.{strip_leading_whitespace, but_last, edit, getline}

-- Keys that are neither ENTER nor BACKSPACE.
abbrev pub Typed : List ℕ → Type 0
Typed [] = Unit
Typed (k ∷ ks) = (k ≢ 10) × (k ≢ 8) × Typed ks

but_last-snoc : (t : List ℕ) (c : ℕ) → but_last (t ++ c ∷ []) ≡ t
unfolding but_last
but_last-snoc [] c = refl
but_last-snoc (d ∷ []) c = refl
but_last-snoc (d ∷ e ∷ t) c = ap (λ l. d ∷ l) (but_last-snoc (e ∷ t) c)

snoc-append : (t : List ℕ) (c : ℕ) (w : List ℕ) → (t ++ c ∷ []) ++ w ≡ t ++ c ∷ w
snoc-append [] c w = refl
snoc-append (d ∷ t) c w = ap (λ l. d ∷ l) (snoc-append t c w)

edit-Typed : (t w ks : List ℕ) → Typed w → edit t (w ++ ks) ≡ edit (t ++ w) ks
unfolding edit
edit-Typed t [] ks ok = ap (λ l. edit l ks) (sym (append-nil t))
edit-Typed t (k ∷ w) ks (n1, n2, ok) =
    let e1 : (k == 10) ≡ false = ground arith in
    let e2 : (k == 8) ≡ false = ground arith in
    rw (e1, e2) (edit-Typed (t ++ k ∷ []) w ks ok ∙ ap (λ l. edit l ks) (snoc-append t k w))

edit-erased :
    (wrong t ks : List ℕ)
    → Typed wrong
    → edit t (wrong ++ (replicate (length wrong) 8 ++ ks)) ≡ edit t ks
unfolding edit
edit-erased [] t ks ok = refl
edit-erased (k ∷ w) t ks (n1, n2, ok) =
    let e1 : (k == 10) ≡ false = ground arith in
    let e2 : (k == 8) ≡ false = ground arith in
    rw (e1, e2)
      (ap (λ l. edit (t ++ k ∷ []) (w ++ l)) (push-eight (length w) ks)
        ∙ edit-erased w (t ++ k ∷ []) (8 ∷ ks) ok
        ∙ ap (λ l. edit l ks) (but_last-snoc t k))
  where
    push-eight : (n : ℕ) (ks : List ℕ) → 8 ∷ (replicate n 8 ++ ks) ≡ replicate n 8 ++ 8 ∷ ks
    push-eight zero ks = refl
    push-eight (suc n) ks = ap (λ l. 8 ∷ l) (push-eight n ks)

-- Text typed, then more characters that are all taken back, then further text and ENTER: `getline`
-- returns the two texts without the spaces before them.
getline-edited :
    (w wrong v ks : List ℕ)
    → Typed w
    → Typed wrong
    → Typed v
    → getline (w ++ (wrong ++ (replicate (length wrong) 8 ++ (v ++ 10 ∷ ks))))
      ≡ some (strip_leading_whitespace (w ++ v) (length (w ++ v))).0
unfolding getline edit
getline-edited w wrong v ks o1 o2 o3 =
    rw
      (
        edit-Typed [] w (wrong ++ (replicate (length wrong) 8 ++ (v ++ 10 ∷ ks))) o1,
        edit-erased wrong w (v ++ 10 ∷ ks) o2,
        edit-Typed w v (10 ∷ ks) o3,
      )
      refl
