-- ===== src/Shell/Split.antt =====
-- A line of words and the arguments it is split into.
use janus.Base.{
  ℕ, zero, suc, ◌+◌, ◌*◌, ◌≤◌, ◌<◌, ◌≡◌, ◌≢◌, refl, ◌∙◌, ap, true, false, some, List, [], ◌∷◌, ◌++◌,
  leb, length, length-append, replicate, arith, map,
}
use janus.Shell.{
  argnum, cmdlen, is_space, ends_arg, scan_arg, skip_spaces, prepend, gen_args, shell_gen_args,
}

-- A word without space, tab and backslash.
abbrev pub Plain : List ℕ → Type 0
Plain [] = Unit
Plain (c ∷ cs) = (c ≢ 32) × (c ≢ 9) × (c ≢ 92) × Plain cs

-- What may stand behind an argument, and behind the spaces after it.
abbrev Stops : List ℕ → Type 0
Stops [] = Unit
Stops (c ∷ cs) = c ≡ 32

abbrev Starts : List ℕ → Type 0
Starts [] = Unit
Starts (c ∷ cs) = (c ≢ 32) × (c ≢ 9)

scan_arg_lem :
    (prev : ℕ) (w tail : List ℕ)
    → prev ≢ 92
    → Plain w
    → Stops tail
    → (p : ℕ) × (scan_arg prev (w ++ tail) ≡ (w, p, tail)) × (p ≢ 92)
unfolding scan_arg
scan_arg_lem prev [] [] n pl st = (prev, refl, n)
scan_arg_lem prev [] (t ∷ ts) n pl st =
    let e : ends_arg prev t ≡ true = ground arith in (prev, rw e, n)
scan_arg_lem prev (c ∷ cs) tail n (n1, n2, n3, pl) st =
    let (p, run, n') = scan_arg_lem c cs tail n3 pl st in
    let e : ends_arg prev c ≡ false = ground arith in (p, rw (e, run), n')

skip_spaces_lem :
    (p k : ℕ) (rest : List ℕ)
    → p ≢ 92
    → Starts rest
    → (p' : ℕ) × (skip_spaces p (replicate k 32 ++ rest) ≡ (p', rest)) × (p' ≢ 92)
unfolding skip_spaces
skip_spaces_lem p zero [] n st = (p, refl, n)
skip_spaces_lem p zero (c ∷ cs) n (n1, n2) =
    let e : is_space c ≡ false = ground arith in (p, rw e, n)
skip_spaces_lem p (suc k) rest n st = skip_spaces_lem 0 k rest (omega arith) st

-- One round of the outer loop.
gen_args_round :
    (fuel args prev c : ℕ) (cs : List ℕ) (k : ℕ) (rest : List ℕ)
    → args < argnum
    → prev ≢ 92
    → Plain (c ∷ cs)
    → Stops (replicate k 32 ++ rest)
    → Starts rest
    → (p : ℕ) × (gen_args (suc fuel) args prev (c ∷ cs ++ (replicate k 32 ++ rest))
        ≡ prepend (c ∷ cs) (gen_args fuel (args + 1) p rest))
      × (p ≢ 92)
unfolding gen_args
gen_args_round fuel args prev c cs k rest h n pl st sr =
    let (p, run, n1) = scan_arg_lem prev (c ∷ cs) (replicate k 32 ++ rest) n pl st in
    let (p', skip, n2) = skip_spaces_lem p k rest n1 sr in
    let run' : scan_arg prev (c ∷ (cs ++ (replicate k 32 ++ rest)))
        ≡ (c ∷ cs, p, replicate k 32 ++ rest) =
      run in
    let e : leb argnum args ≡ false = ground arith in (p', rw (e, run', skip), n2)

-- Words with the number of spaces to put behind each; at least one between two words.
abbrev pub line : List (List ℕ × ℕ) → List ℕ
line [] = []
line ((w, k) ∷ []) = w ++ (replicate k 32 ++ [])
line ((w, k) ∷ v ∷ ws) = w ++ (replicate (suc k) 32 ++ line (v ∷ ws))

abbrev pub Words : List (List ℕ × ℕ) → Type 0
Words [] = Unit
Words ((w, k) ∷ ws) = (w ≢ []) × Plain w × Words ws

abbrev words_of : List (List ℕ × ℕ) → List (List ℕ)
words_of ws = map (λ w. w.0) ws

Stops-spaces : (k : ℕ) → Stops (replicate k 32 ++ [])
Stops-spaces zero = tt
Stops-spaces (suc k) = refl

Starts-line : (w : List ℕ × ℕ) (ws : List (List ℕ × ℕ)) → Words (w ∷ ws) → Starts (line (w ∷ ws))
Starts-line ([], k) ws (ne, pl, r) = absurd (ne refl)
Starts-line (c ∷ cs, k) [] (ne, pl, r) = (pl.0, pl.1)
Starts-line (c ∷ cs, k) (v ∷ ws) (ne, pl, r) = (pl.0, pl.1)

gen_args-line :
    (ws : List (List ℕ × ℕ)) (fuel args prev : ℕ)
    → Words ws
    → length ws < fuel
    → args + length ws ≤ argnum
    → prev ≢ 92
    → gen_args fuel args prev (line ws) ≡ some (words_of ws)
unfolding gen_args prepend
gen_args-line ws zero args prev r f h n = absurd (omega (arith, f))
gen_args-line [] (suc fuel) args prev r f h n = refl
gen_args-line (([], k) ∷ ws) (suc fuel) args prev (ne, pl, r) f h n = absurd (ne refl)
gen_args-line ((c ∷ cs, k) ∷ []) (suc fuel) args prev (ne, pl, r) f h n =
    let (p, run, n') =
      gen_args_round fuel args prev c cs k [] (omega (arith, h)) n pl (Stops-spaces k) tt in
    run
    ∙ ap (prepend (c ∷ cs))
        (gen_args-line [] fuel (args + 1) p tt (omega (arith, f)) (omega (arith, h)) n')
gen_args-line ((c ∷ cs, k) ∷ v ∷ ws) (suc fuel) args prev (ne, pl, r) f h n =
    let (p, run, n') =
      gen_args_round fuel args prev c cs (suc k) (line (v ∷ ws)) (omega (arith, h)) n pl refl
        (Starts-line v ws r) in
    run
    ∙ ap (prepend (c ∷ cs))
        (gen_args-line (v ∷ ws) fuel (args + 1) p r (omega (arith, f)) (omega (arith, h)) n')

length-block :
    (cs gap rest : List ℕ) (n : ℕ)
    → 0 < length gap
    → 2 * n ≤ suc (length rest)
    → 2 * suc n ≤ suc (suc (length (cs ++ (gap ++ rest))))
length-block cs gap rest n g h =
    omega (arith, g, h, length-append cs (gap ++ rest), length-append gap rest)

-- A word has a byte, and a space is between two of them.
length-line : (ws : List (List ℕ × ℕ)) → Words ws → 2 * length ws ≤ suc (length (line ws))
length-line [] r = omega arith
length-line (([], k) ∷ ws) (ne, pl, r) = absurd (ne refl)
length-line ((c ∷ cs, k) ∷ []) (ne, pl, r) = omega arith
length-line ((c ∷ cs, k) ∷ v ∷ ws) (ne, pl, r) =
    length-block cs (replicate (suc k) 32) (line (v ∷ ws)) _ (omega arith) (length-line (v ∷ ws) r)

-- `shell_gen_args` splits a line of at most 256 bytes, words with any number of spaces between them
-- and at the end, into just these words, where no word has a space, a tab or a backslash and the byte
-- before the buffer is no backslash.
pub shell_gen_args-line :
    (before : ℕ) (ws : List (List ℕ × ℕ))
    → before ≢ 92
    → Words ws
    → length (line ws) ≤ cmdlen
    → shell_gen_args before (line ws) ≡ some (some (map (λ w. w.0) ws))
unfolding shell_gen_args
shell_gen_args-line before ws n r h =
    let enough = length-line ws r in
    let fits : leb (length (line ws)) cmdlen ≡ true = ground (arith, h) in
    rw fits (
      ap some (
        gen_args-line ws (suc (length (line ws))) 0 before r (omega (arith, enough))
          (omega (arith, enough, h)) n))
