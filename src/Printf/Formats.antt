-- ===== src/Printf/Formats.antt =====
-- Whole formats: text, a conversion, text.
use janus.Base.{
  ℕ, ◌≤◌, ◌≡◌, ◌≢◌, refl, sym, subst, false, ◌&&◌, Option, none, some, List, [], ◌∷◌, ◌++◌, ◌==◌,
  length, arith, append-nil, leb, ◌>>=◌,
}
use janus.Printf.{
  no_flags, Arg, convert, plain, step, step_flags, step_width, step_modifier, format, vsnprintf,
}

-- Text with no `%`.
abbrev pub Literal : List ℕ → Type 0
Literal [] = Unit
Literal (c ∷ cs) = (c ≢ 37) × Literal cs

abbrev after : List ℕ → Option (List ℕ) → Option (List ℕ)
after t o = o >>= (λ rest. some (t ++ rest))

after-cons :
    (c : ℕ) (t : List ℕ) (o : Option (List ℕ)) → after (c ∷ []) (after t o) ≡ after (c ∷ t) o
after-cons c t none = refl
after-cons c t (some r) = refl

after-nil : (o : Option (List ℕ)) → after [] o ≡ o
after-nil none = refl
after-nil (some r) = refl

-- Text is put out as it stands, wherever it stands.
format-Literal :
    (t cs : List ℕ) (args : List Arg)
    → Literal t
    → format plain no_flags 0 (t ++ cs) args ≡ after t (format plain no_flags 0 cs args)
unfolding format step
format-Literal [] cs args ok = sym (after-nil (format plain no_flags 0 cs args))
format-Literal (c ∷ t) cs args (n, ok) =
    let e : (c == 37) ≡ false = ground arith in
    rw (e, format-Literal t cs args ok) (after-cons c t (format plain no_flags 0 cs args))

-- A conversion character with nothing between it and the `%`.
step_flags-conversion :
    (c : ℕ) (args : List Arg)
    → 58 ≤ c
    → c ≢ 70
    → c ≢ 78
    → c ≢ 104
    → c ≢ 108
    → step_flags no_flags 0 c args ≡ (
        convert no_flags 0 c args >>= (λ r.
          some record { mode = plain; flags = no_flags; given_wd = 0; out = r.0; args = r.1 }))
unfolding step_flags step_width step_modifier
step_flags-conversion c args h n1 n2 n3 n4 =
    let e1 : (c == 37) ≡ false = ground arith in
    let e2 : (c == 45) ≡ false = ground arith in
    let e3 : (c == 48) ≡ false = ground arith in
    let e4 : leb c 57 ≡ false = ground arith in
    let e5 : (c == 70) ≡ false = ground arith in
    let e6 : (c == 78) ≡ false = ground arith in
    let e7 : (c == 108) ≡ false = ground arith in
    let e8 : (c == 104) ≡ false = ground arith in
    let e9 : (leb 48 c && leb c 57) ≡ false = ground arith in
    rw (e1, e2, e3, e9, e5, e6, e7, e8) refl

-- The format of text, a conversion and text gives the two texts as they stand and between them
-- what the conversion makes of the argument, for every conversion character but the letters that
-- change the size of the argument.
pub format-conversion :
    (t u : List ℕ) (c : ℕ) (out : List ℕ) (args : List Arg)
    → Literal t
    → Literal u
    → convert no_flags 0 c args ≡ some (out, [])
    → 58 ≤ c
    → c ≢ 70
    → c ≢ 78
    → c ≢ 104
    → c ≢ 108
    → vsnprintf (t ++ 37 ∷ c ∷ u) args ≡ some (t ++ (out ++ u), length (t ++ (out ++ u)))
unfolding vsnprintf format step
format-conversion t u c out args l1 l2 e h n1 n2 n3 n4 =
    let tail : format plain no_flags 0 (u ++ []) [] ≡ some (u ++ []) = format-Literal u [] [] l2 in
    let tail' : format plain no_flags 0 u [] ≡ some u =
      subst (λ x. format plain no_flags 0 x [] ≡ some x) (append-nil u) tail in
    rw (format-Literal t (37 ∷ c ∷ u) args l1, step_flags-conversion c args h n1 n2 n3 n4, e, tail')
      refl
