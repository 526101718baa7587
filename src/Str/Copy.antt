-- ===== src/Str/Copy.antt =====
-- `strcpy`, `strncpy` and `strcat` of string.c: what they write, and that they write nothing else.
use janus.Base.{
  ℕ, zero, suc, ◌+◌, ◌≤◌, ◌<◌, ◌≡◌, ◌⊎◌, inl, inr, refl, sym, ◌∙◌, ap, some, List, [], ◌∷◌, ◌++◌,
  arith, length, subst,
}
use janus.Memory.{Mem, store, poke, IsStr}
use janus.Memory.Laws.{IsStr-store, IsStr-poke, poke_below, poke_above, poke_outside}
use janus.Str.{strcpy, strncpy, strend, strcat}

-- The string at `s` and its NUL lie apart from the `n` bytes from `d` on.
abbrev pub Apart : (d n s : ℕ) → List ℕ → Type 0
Apart d n s xs = (d + n ≤ s) ⊎ (s + length xs < d)

-- A copy of a string is its bytes and a NUL written at the destination.
strcpy-poke :
    (xs : List ℕ) (fuel : ℕ) (m : Mem) (d s : ℕ)
    → IsStr m s xs
    → length xs < fuel
    → Apart d (length xs + 1) s xs
    → strcpy fuel m d s ≡ some (poke m d (xs ++ 0 ∷ []))
unfolding strcpy poke
strcpy-poke [] zero m d s is h apart = absurd (omega arith)
strcpy-poke (x ∷ xs) zero m d s is h apart = absurd (omega arith)
strcpy-poke [] (suc fuel) m d s is h apart = ground arith
strcpy-poke (x ∷ xs) (suc fuel) m d s is h apart = ground (
  arith,
  strcpy-poke xs fuel (store m d x) (d + 1) (s + 1)
      (IsStr-store m d x (s + 1) xs (omega arith) is.3) (omega arith) (omega arith),
)

-- With fuel for the source and its NUL, and the two apart, `strcpy` returns a memory that holds
-- the source string at `dest` and is unchanged outside the bytes written.
pub strcpy_lem :
    (xs : List ℕ) (fuel : ℕ) (m : Mem) (d s : ℕ)
    → IsStr m s xs
    → length xs < fuel
    → Apart d (length xs + 1) s xs
    → (m' : Mem) × (strcpy fuel m d s ≡ some m')
      × IsStr m' d xs
      × ((a : ℕ) → (a < d) ⊎ (d + length xs < a) → m' a ≡ m a)
strcpy_lem xs fuel m d s is h apart = (
  poke m d (xs ++ 0 ∷ []),
  strcpy-poke xs fuel m d s is h apart,
  IsStr-poke m m s d xs is,
  poke_outside m d xs,
)

strend_lem :
    (xs : List ℕ) (fuel : ℕ) (m : Mem) (p : ℕ)
    → IsStr m p xs
    → length xs < fuel
    → strend fuel m p ≡ some (p + length xs)
unfolding strend
strend_lem [] zero m p is h = absurd (omega arith)
strend_lem (x ∷ xs) zero m p is h = absurd (omega arith)
strend_lem [] (suc fuel) m p is h = ground arith
strend_lem (x ∷ xs) (suc fuel) m p is h =
    ground (arith, strend_lem xs fuel m (p + 1) is.3 (omega arith))

-- A string followed directly by another is their concatenation.
IsStr-append :
    (xs ys : List ℕ) (m m' : Mem) (p : ℕ)
    → IsStr m p xs
    → ((a : ℕ) → a < p + length xs → m' a ≡ m a)
    → IsStr m' (p + length xs) ys
    → IsStr m' p (xs ++ ys)
IsStr-append [] ys m m' p is same js = subst (λ q. IsStr m' q ys) (omega arith) js
IsStr-append (x ∷ xs) ys m m' p is same js = (
  same p (omega arith) ∙ is.0,
  is.1,
  is.2,
  IsStr-append xs ys m m' (p + 1) is.3 (λ a h. same a (omega arith))
      (subst (λ q. IsStr m' q ys) (omega arith) js),
)

-- With fuel for both strings, and the bytes behind the first free of the second, `strcat` returns
-- a memory that holds the concatenation at `s1` and is unchanged but for the bytes appended.
strcat_lem :
    (xs ys : List ℕ) (fuel : ℕ) (m : Mem) (p q : ℕ)
    → IsStr m p xs
    → IsStr m q ys
    → length xs < fuel
    → length ys < fuel
    → Apart (p + length xs) (length ys + 1) q ys
    → (m' : Mem) × (strcat fuel m p q ≡ some m')
      × IsStr m' p (xs ++ ys)
      × ((a : ℕ) → (a < p + length xs) ⊎ (p + length xs + length ys < a) → m' a ≡ m a)
unfolding strcat
strcat_lem xs ys fuel m p q is js h k apart = (
  poke m e (ys ++ 0 ∷ []),
  rw (strend_lem xs fuel m p is h, strcat) (strcpy-poke ys fuel m e q js k apart),
  IsStr-append xs ys m (poke m e (ys ++ 0 ∷ [])) p is (λ a b. poke_outside m e ys a (inl b))
      (IsStr-poke m m q e ys js),
  poke_outside m e ys,
)
  where
    e : ℕ
    e = p + length xs

-- What `strncpy` writes of a string: its first `limit` bytes, and a NUL only where room is left.
unfoldable pub copied : ℕ → List ℕ → List ℕ
copied zero xs = []
copied (suc k) [] = 0 ∷ []
copied (suc k) (x ∷ xs) = x ∷ copied k xs

-- `strncpy` writes the first `limit` bytes of the source at `dest`, with a NUL behind them only
-- where the source is shorter than `limit`, and nothing else.
pub strncpy-poke :
    (limit : ℕ) (xs : List ℕ) (m : Mem) (d s : ℕ)
    → IsStr m s xs
    → Apart d limit s xs
    → strncpy m d s limit ≡ poke m d (copied limit xs)
unfolding strncpy poke copied
strncpy-poke zero xs m d s is apart = refl
strncpy-poke (suc k) [] m d s is apart = ground arith
strncpy-poke (suc k) (x ∷ xs) m d s is apart = ground (
  arith,
  strncpy-poke k xs (store m d x) (d + 1) (s + 1) (IsStr-store m d x (s + 1) xs (omega arith) is.3)
      (omega arith),
)

length-copied : (k : ℕ) (xs : List ℕ) → length (copied k xs) ≤ k
unfolding copied
length-copied zero xs = omega arith
length-copied (suc k) [] = omega arith
length-copied (suc k) (x ∷ xs) = omega (arith, length-copied k xs)

copied-str : (k : ℕ) (xs : List ℕ) → length xs < k → copied k xs ≡ xs ++ 0 ∷ []
unfolding copied
copied-str zero xs h = absurd (omega arith)
copied-str (suc k) [] h = refl
copied-str (suc k) (x ∷ xs) h = ap (λ ys. x ∷ ys) (copied-str k xs (omega arith))

-- `strncpy` changes nothing outside the `limit` bytes at `dest`; a source shorter than `limit`
-- is a string there afterwards.
strncpy_bounded :
    (limit : ℕ) (xs : List ℕ) (m : Mem) (d s : ℕ)
    → IsStr m s xs
    → Apart d limit s xs
    → ((a : ℕ) → (a < d) ⊎ (d + limit ≤ a) → strncpy m d s limit a ≡ m a)
      × (length xs < limit → IsStr (strncpy m d s limit) d xs)
strncpy_bounded k xs m d s is apart = (
  λ a o. ap (λ (n : Mem). n a) (strncpy-poke k xs m d s is apart) ∙ outside a o,
  λ h.
      subst (λ n. IsStr n d xs)
        (sym (strncpy-poke k xs m d s is apart ∙ ap (poke m d) (copied-str k xs h)))
        (IsStr-poke m m s d xs is),
)
  where
    outside : (a : ℕ) → (a < d) ⊎ (d + k ≤ a) → poke m d (copied k xs) a ≡ m a
    outside a (inl h) = poke_below m d (copied k xs) a h
    outside a (inr h) = poke_above m d (copied k xs) a (omega (arith, length-copied k xs))
