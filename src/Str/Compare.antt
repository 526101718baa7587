-- ===== src/Str/Compare.antt =====
-- `strcmp` and `strncmp` of string.c decide equality of strings.
use janus.Base.{
  ℕ, zero, suc, ◌+◌, ◌<◌, ◌≡◌, ◌≢◌, ◌↔◌, refl, sym, ◌∙◌, ap, some, List, [], ◌∷◌, arith, ◌==◌,
  if◌then◌else◌, length, take,
}
use janus.Base.Int.{ℤ, pos}
use janus.Memory.{Mem, IsStr}
use janus.Str.{strcmp, strncmp, char_sub}

-- The difference of two bytes is 0 only if they are equal.
char_sub-zero : (a b : ℕ) → a < 256 → b < 256 → char_sub a b ≡ pos 0 → a ≡ b
unfolding char_sub
char_sub-zero a b ha hb e = ground arith

char_sub_self : (a : ℕ) → char_sub a a ≡ pos 0
unfolding char_sub
char_sub_self a = ground arith

-- The bytes at which two strings first differ, or their NULs, as `strcmp` subtracts them.
pub compare_strs : List ℕ → List ℕ → ℤ
compare_strs [] [] = char_sub 0 0
compare_strs [] (y ∷ ys) = char_sub 0 y
compare_strs (x ∷ xs) [] = char_sub x 0
compare_strs (x ∷ xs) (y ∷ ys) =
    let rest = compare_strs xs ys in if x == y then rest else char_sub x y

abbrev pub AllBytes : List ℕ → Type 0
AllBytes [] = Unit
AllBytes (x ∷ xs) = (x < 256) × (x ≢ 0) × AllBytes xs

IsStr-AllBytes : (xs : List ℕ) (m : Mem) (p : ℕ) → IsStr m p xs → AllBytes xs
IsStr-AllBytes [] m p is = tt
IsStr-AllBytes (x ∷ xs) m p is = (omega arith, is.1, IsStr-AllBytes xs m (p + 1) is.3)

-- With fuel for the shorter string and its NUL, `strcmp` returns the comparison of the contents.
strcmp-compare_strs :
    (xs ys : List ℕ) (fuel : ℕ) (m : Mem) (p q : ℕ)
    → IsStr m p xs
    → IsStr m q ys
    → length xs < fuel
    → strcmp fuel m p q ≡ some (compare_strs xs ys)
unfolding strcmp compare_strs
strcmp-compare_strs [] ys zero m p q is js h = absurd (omega arith)
strcmp-compare_strs (x ∷ xs) ys zero m p q is js h = absurd (omega arith)
strcmp-compare_strs [] [] (suc fuel) m p q is js h = ground arith
strcmp-compare_strs [] (y ∷ ys) (suc fuel) m p q is js h = ground arith
strcmp-compare_strs (x ∷ xs) [] (suc fuel) m p q is js h = ground arith
strcmp-compare_strs (x ∷ xs) (y ∷ ys) (suc fuel) m p q is js h =
    ground (arith, strcmp-compare_strs xs ys fuel m (p + 1) (q + 1) is.3 js.3 (omega arith))

compare_strs_self : (xs : List ℕ) → compare_strs xs xs ≡ pos 0
unfolding compare_strs
compare_strs_self [] = char_sub_self 0
compare_strs_self (x ∷ xs) = ground (arith, compare_strs_self xs)

compare_strs-eq :
    (xs ys : List ℕ) → AllBytes xs → AllBytes ys → compare_strs xs ys ≡ pos 0 → xs ≡ ys
unfolding compare_strs
compare_strs-eq [] [] a b e = refl
compare_strs-eq [] (y ∷ ys) a b e = absurd (b.1 (sym (char_sub-zero 0 y (omega arith) b.0 e)))
compare_strs-eq (x ∷ xs) [] a b e = absurd (a.1 (char_sub-zero x 0 a.0 (omega arith) e))
compare_strs-eq (x ∷ xs) (y ∷ ys) a b e =
    ground (arith, compare_strs-eq xs ys a.2 b.2, char_sub-zero x y a.0 b.0)

-- With fuel for the first string, `strcmp` returns on two strings, and returns 0 exactly when
-- they hold the same bytes.
strcmp_iff :
    (xs ys : List ℕ) (fuel : ℕ) (m : Mem) (p q : ℕ)
    → IsStr m p xs
    → IsStr m q ys
    → length xs < fuel
    → (r : ℤ) × (strcmp fuel m p q ≡ some r) × ((r ≡ pos 0) ↔ (xs ≡ ys))
strcmp_iff xs ys fuel m p q is js h = (
  compare_strs xs ys,
  strcmp-compare_strs xs ys fuel m p q is js h,
  (
    compare_strs-eq xs ys (IsStr-AllBytes xs m p is) (IsStr-AllBytes ys m q js),
    λ e. ap (compare_strs xs) (sym e) ∙ compare_strs_self xs,
  ),
)

strncmp-compare_strs :
    (k : ℕ) (xs ys : List ℕ) (m : Mem) (p q : ℕ)
    → IsStr m p xs
    → IsStr m q ys
    → strncmp k m p q ≡ compare_strs (take k xs) (take k ys)
unfolding strncmp compare_strs
strncmp-compare_strs zero xs ys m p q is js = sym (char_sub_self 0)
strncmp-compare_strs (suc k) [] [] m p q is js = ground arith
strncmp-compare_strs (suc k) [] (y ∷ ys) m p q is js = ground arith
strncmp-compare_strs (suc k) (x ∷ xs) [] m p q is js = ground arith
strncmp-compare_strs (suc k) (x ∷ xs) (y ∷ ys) m p q is js =
    ground (arith, strncmp-compare_strs k xs ys m (p + 1) (q + 1) is.3 js.3)

AllBytes-take : (k : ℕ) (xs : List ℕ) → AllBytes xs → AllBytes (take k xs)
AllBytes-take zero xs a = tt
AllBytes-take (suc k) [] a = tt
AllBytes-take (suc k) (x ∷ xs) a = (a.0, a.1, AllBytes-take k xs a.2)

-- On two strings `strncmp` returns 0 exactly when their first `limit` bytes are the same.
strncmp_iff :
    (limit : ℕ) (xs ys : List ℕ) (m : Mem) (p q : ℕ)
    → IsStr m p xs
    → IsStr m q ys
    → (strncmp limit m p q ≡ pos 0) ↔ (take limit xs ≡ take limit ys)
strncmp_iff k xs ys m p q is js = (
  λ e.
      compare_strs-eq (take k xs) (take k ys) (AllBytes-take k xs (IsStr-AllBytes xs m p is))
        (AllBytes-take k ys (IsStr-AllBytes ys m q js))
        (sym (strncmp-compare_strs k xs ys m p q is js) ∙ e),
  λ e.
      strncmp-compare_strs k xs ys m p q is js
      ∙ ap (compare_strs (take k xs)) (sym e)
      ∙ compare_strs_self (take k xs),
)
