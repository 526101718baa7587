-- ===== src/Fat/Pathname.antt =====
-- The loop that splits a path at its slashes, the same in `chdir_fat32` of fat32.c and in
-- `ext2_chdir` of src/fs/ext2/dir.c, and what it does with a path of plain parts.
use janus.Base.{
  ℕ, zero, suc, ◌+◌, ◌≤◌, ◌<◌, ◌≡◌, ◌≢◌, refl, ◌∙◌, ap, true, false, ◌||◌, Option, none, some, List,
  [], ◌∷◌, ◌++◌, ◌==◌, if◌then◌else◌, leb, length, length-append, arith, ◌>>=◌, replicate, map,
}

-- PATH_LEN: `sc` has a byte more, for the NUL.
abbrev pub path_len : ℕ
path_len = 100

-- DIRECTORY_NUM
abbrev pub directory_num : ℕ
directory_num = 10

-- The part up to a slash, and the rest.
pub scan_part : List ℕ → List ℕ × List ℕ
scan_part [] = ([], [])
scan_part (c ∷ cs) =
    let (part, rest) = scan_part cs in if c == 47 then ([], c ∷ cs) else (c ∷ part, rest)

-- Slashes and newlines, each overwritten by a NUL.
pub skip_slashes : List ℕ → List ℕ
skip_slashes [] = []
skip_slashes (c ∷ cs) =
    let rest = skip_slashes cs in if (c == 47) || (c == 10) then rest else c ∷ cs

-- The loop on fuel: the parts, or `none` for PAT_LEN_EXCEED.
pub split_from : (fuel args : ℕ) → List ℕ → Option (List (List ℕ))
unfolding scan_part skip_slashes
split_from zero args s = none
split_from (suc fuel) args [] = some []
split_from (suc fuel) args (c ∷ cs) =
    let (part, s1) = scan_part (c ∷ cs) in
    let rest = split_from fuel (args + 1) (skip_slashes s1) >>= (λ parts. some (part ∷ parts)) in
    if leb directory_num args then none else rest

-- Each round passes a character, so fuel for them all is enough. `none` is that the copy of the path
-- overruns `sc`, `some none` PAT_LEN_EXCEED.
unfoldable pub split_path : List ℕ → Option (Option (List (List ℕ)))
unfolding split_from
split_path c = if leb (length c) path_len then some (split_from (suc (length c)) 0 c) else none

-- A part without slash and newline.
abbrev pub Plain : List ℕ → Type 0
Plain [] = Unit
Plain (c ∷ cs) = (c ≢ 47) × (c ≢ 10) × Plain cs

-- What may stand behind a part, and behind the slashes after it.
abbrev Stops : List ℕ → Type 0
Stops [] = Unit
Stops (c ∷ cs) = c ≡ 47

abbrev Starts : List ℕ → Type 0
Starts [] = Unit
Starts (c ∷ cs) = (c ≢ 47) × (c ≢ 10)

scan_part_lem : (w tail : List ℕ) → Plain w → Stops tail → scan_part (w ++ tail) ≡ (w, tail)
unfolding scan_part
scan_part_lem [] [] pl st = refl
scan_part_lem [] (t ∷ ts) pl st = let e : (t == 47) ≡ true = ground arith in rw e
scan_part_lem (c ∷ cs) tail (n1, n2, pl) st =
    let e : (c == 47) ≡ false = ground arith in rw (e, scan_part_lem cs tail pl st)

skip_slashes_lem :
    (k : ℕ) (rest : List ℕ) → Starts rest → skip_slashes (replicate k 47 ++ rest) ≡ rest
unfolding skip_slashes
skip_slashes_lem zero [] st = refl
skip_slashes_lem zero (c ∷ cs) (n1, n2) =
    let e : ((c == 47) || (c == 10)) ≡ false = ground arith in rw e
skip_slashes_lem (suc k) rest st = skip_slashes_lem k rest st

-- One round of the loop.
split_round :
    (fuel args c : ℕ) (cs : List ℕ) (k : ℕ) (rest : List ℕ)
    → args < directory_num
    → Plain (c ∷ cs)
    → Stops (replicate k 47 ++ rest)
    → Starts rest
    → split_from (suc fuel) args (c ∷ cs ++ (replicate k 47 ++ rest))
      ≡ (split_from fuel (args + 1) rest >>= (λ parts. some ((c ∷ cs) ∷ parts)))
unfolding split_from
split_round fuel args c cs k rest h pl st sr =
    let run : scan_part (c ∷ (cs ++ (replicate k 47 ++ rest))) ≡ (c ∷ cs, replicate k 47 ++ rest) =
      scan_part_lem (c ∷ cs) (replicate k 47 ++ rest) pl st in
    let e : leb directory_num args ≡ false = ground arith in rw (e, run, skip_slashes_lem k rest sr)

-- Parts with the number of slashes to put behind each; at least one between two parts.
abbrev pub path : List (List ℕ × ℕ) → List ℕ
path [] = []
path ((w, k) ∷ []) = w ++ (replicate k 47 ++ [])
path ((w, k) ∷ v ∷ ws) = w ++ (replicate (suc k) 47 ++ path (v ∷ ws))

abbrev pub Parts : List (List ℕ × ℕ) → Type 0
Parts [] = Unit
Parts ((w, k) ∷ ws) = (w ≢ []) × Plain w × Parts ws

Stops-slashes : (k : ℕ) → Stops (replicate k 47 ++ [])
Stops-slashes zero = tt
Stops-slashes (suc k) = refl

Starts-path : (w : List ℕ × ℕ) (ws : List (List ℕ × ℕ)) → Parts (w ∷ ws) → Starts (path (w ∷ ws))
Starts-path ([], k) ws (ne, pl, r) = absurd (ne refl)
Starts-path (c ∷ cs, k) [] (ne, pl, r) = (pl.0, pl.1)
Starts-path (c ∷ cs, k) (v ∷ ws) (ne, pl, r) = (pl.0, pl.1)

split_from-path :
    (ws : List (List ℕ × ℕ)) (fuel args : ℕ)
    → Parts ws
    → length ws < fuel
    → args + length ws ≤ directory_num
    → split_from fuel args (path ws) ≡ some (map (λ w. w.0) ws)
unfolding split_from
split_from-path ws zero args r f h = absurd (omega (arith, f))
split_from-path [] (suc fuel) args r f h = refl
split_from-path (([], k) ∷ ws) (suc fuel) args (ne, pl, r) f h = absurd (ne refl)
split_from-path ((c ∷ cs, k) ∷ []) (suc fuel) args (ne, pl, r) f h =
    split_round fuel args c cs k [] (omega (arith, h)) pl (Stops-slashes k) tt
    ∙ ap (λ o. o >>= (λ parts. some ((c ∷ cs) ∷ parts)))
        (split_from-path [] fuel (args + 1) tt (omega (arith, f)) (omega (arith, h)))
split_from-path ((c ∷ cs, k) ∷ v ∷ ws) (suc fuel) args (ne, pl, r) f h =
    split_round fuel args c cs (suc k) (path (v ∷ ws)) (omega (arith, h)) pl refl
      (Starts-path v ws r)
    ∙ ap (λ o. o >>= (λ parts. some ((c ∷ cs) ∷ parts)))
        (split_from-path (v ∷ ws) fuel (args + 1) r (omega (arith, f)) (omega (arith, h)))

length-segment :
    (cs gap rest : List ℕ) (n : ℕ) → n ≤ length rest → suc n ≤ suc (length (cs ++ (gap ++ rest)))
length-segment cs gap rest n h =
    omega (arith, h, length-append cs (gap ++ rest), length-append gap rest)

length-path : (ws : List (List ℕ × ℕ)) → Parts ws → length ws ≤ length (path ws)
length-path [] r = omega arith
length-path (([], k) ∷ ws) (ne, pl, r) = absurd (ne refl)
length-path ((c ∷ cs, k) ∷ []) (ne, pl, r) = omega arith
length-path ((c ∷ cs, k) ∷ v ∷ ws) (ne, pl, r) =
    length-segment cs (replicate (suc k) 47) (path (v ∷ ws)) _ (length-path (v ∷ ws) r)

-- `split_path` splits a path of at most 100 bytes and 10 parts, with any number of slashes between
-- them and at the end, into just these parts, where no part is empty or has a slash or a newline.
pub split_path-path :
    (ws : List (List ℕ × ℕ))
    → Parts ws
    → length (path ws) ≤ path_len
    → length ws ≤ directory_num
    → split_path (path ws) ≡ some (some (map (λ w. w.0) ws))
unfolding split_path
split_path-path ws r short h =
    let enough = length-path ws r in
    let fits : leb (length (path ws)) path_len ≡ true = ground (arith, short) in
    rw fits (
      ap some (
        split_from-path ws (suc (length (path ws))) 0 r (omega (arith, enough)) (omega (arith, h))))
