-- ===== src/Str/Search.antt =====
-- `strchr`, `strrchr` and `strpbrk` of string.c: the address that they return.
use janus.Base.{
  ℕ, zero, suc, ◌+◌, ◌≤◌, ◌<◌, ◌≡◌, inl, inr, refl, ◌∙◌, ap, Bool, true, false, Option, none, some,
  List, [], ◌∷◌, arith, ◌==◌, if◌then◌else◌, length, Bool-cases, subst,
}
use native.Mathlib.Decide.{ℕ_discrete}
use janus.Memory.{Mem, IsStr}
use janus.Str.Measure.{strlen-length}
use janus.Str.{strchr, strrchr_loop, strrchr, accepts, strpbrk_loop, strpbrk}

module _ (m : Mem) (P : ℕ → Bool) where
  -- The lowest address from `s` up to `e` whose byte passes `P`, or none.
  abbrev pub IsFirst : (s e : ℕ) → Option ℕ → Type 0
  IsFirst s e none = (a : ℕ) → s ≤ a → a < e → P (m a) ≡ false
  IsFirst s e (some a) =
      (s ≤ a) × (a < e) × (P (m a) ≡ true) × ((b : ℕ) → s ≤ b → b < a → P (m b) ≡ false)

  -- The highest one.
  abbrev pub IsLast : (s e : ℕ) → Option ℕ → Type 0
  IsLast s e none = (a : ℕ) → s ≤ a → a < e → P (m a) ≡ false
  IsLast s e (some a) =
      (s ≤ a) × (a < e) × (P (m a) ≡ true) × ((b : ℕ) → a < b → b < e → P (m b) ≡ false)

  miss_first :
      (s e a : ℕ) → P (m s) ≡ false → (s + 1 ≤ a → P (m a) ≡ false) → s ≤ a → P (m a) ≡ false
  miss_first s e a h k le = elim (ℕ_discrete a s) [
    | yes eq ↦ ap (λ x. P (m x)) eq ∙ h
    | no ne ↦ k (omega arith)
  ]

  IsFirst-step : (s e : ℕ) (r : Option ℕ) → P (m s) ≡ false → IsFirst (s + 1) e r → IsFirst s e r
  IsFirst-step s e none h f = λ a p q. miss_first s e a h (λ k. f a k q) p
  IsFirst-step s e (some a) h f =
      (omega arith, f.1, f.2, λ b p q. miss_first s e b h (λ k. f.3 b k q) p)

  IsLast-step :
      (s k : ℕ) (r : Option ℕ) → P (m (s + k)) ≡ false → IsLast s (s + k) r → IsLast s (s + suc k) r
  IsLast-step s k none h f = λ a p q. elim (ℕ_discrete a (s + k)) [
    | yes eq ↦ ap (λ x. P (m x)) eq ∙ h
    | no ne ↦ f a p (omega arith)
  ]
  IsLast-step s k (some a) h f = (
    f.0,
    omega arith,
    f.2,
    λ b p q. elim (ℕ_discrete b (s + k)) [
      | yes eq ↦ ap (λ x. P (m x)) eq ∙ h
      | no ne ↦ f.3 b p (omega arith)
    ],
  )

-- With fuel for the string and its NUL, `strchr` returns the first address among the bytes of the
-- string that holds `c`, and NULL only if none of them does.
pub strchr-IsFirst :
    (xs : List ℕ) (fuel : ℕ) (m : Mem) (s c : ℕ)
    → IsStr m s xs
    → length xs < fuel
    → (r : Option ℕ) × (strchr fuel m s c ≡ some r) × IsFirst m (λ x. x == c) s (s + length xs) r
unfolding strchr
strchr-IsFirst [] zero m s c is h = absurd (omega arith)
strchr-IsFirst (x ∷ xs) zero m s c is h = absurd (omega arith)
strchr-IsFirst [] (suc fuel) m s c is h = (none, ground arith, λ a p q. absurd (omega arith))
strchr-IsFirst (x ∷ xs) (suc fuel) m s c is h = elim (Bool-cases (m s == c)) [
  | inl hit ↦ (some s, ground arith, (omega arith, omega arith, hit, λ b p q. absurd (omega arith)))
  | inr miss ↦
      let (r, e, f) = strchr-IsFirst xs fuel m (s + 1) c is.3 (omega arith) in
      (
        r,
        ground arith,
        IsFirst-step m (λ x. x == c) s (s + suc (length xs)) r miss
            (subst (λ t. IsFirst m (λ x. x == c) (s + 1) t r) (omega arith) f),
      )
]

strrchr_loop-IsLast :
    (k : ℕ) (m : Mem) (s c : ℕ) → IsLast m (λ x. x == c) s (s + k) (strrchr_loop k m s c)
unfolding strrchr_loop
strrchr_loop-IsLast zero m s c = λ a p q. absurd (omega arith)
strrchr_loop-IsLast (suc k) m s c = elim (Bool-cases (m (s + k) == c)) [
  | inl hit ↦ rw hit (omega arith, omega arith, hit, λ b p q. absurd (omega arith))
  | inr miss ↦
      rw miss
        (IsLast-step m (λ x. x == c) s k (strrchr_loop k m s c) miss (strrchr_loop-IsLast k m s c))
]

-- With fuel for the string and its NUL, `strrchr` returns the last address of the string that
-- holds `c`, and NULL only if none does.
pub strrchr-IsLast :
    (xs : List ℕ) (fuel : ℕ) (m : Mem) (s c : ℕ)
    → IsStr m s xs
    → length xs < fuel
    → (r : Option ℕ) × (strrchr fuel m s c ≡ some r) × IsLast m (λ x. x == c) s (s + length xs) r
unfolding strrchr
strrchr-IsLast xs fuel m s c is h = (
  strrchr_loop (length xs) m s c,
  rw (strlen-length xs fuel m s is h, strrchr) refl,
  strrchr_loop-IsLast (length xs) m s c,
)

-- The byte `c` is one of `ys`.
pub one_of : List ℕ → ℕ → Bool
one_of [] c = false
one_of (y ∷ ys) c = if c == y then true else one_of ys c

accepts-one_of :
    (ys : List ℕ) (m : Mem) (c a : ℕ) → IsStr m a ys → accepts (length ys) m c a ≡ one_of ys c
unfolding accepts one_of
accepts-one_of [] m c a is = refl
accepts-one_of (y ∷ ys) m c a is = rw (is.0, accepts-one_of ys m c (a + 1) is.3)

strpbrk_loop-IsFirst :
    (xs ys : List ℕ) (fuel : ℕ) (m : Mem) (s a : ℕ)
    → IsStr m s xs
    → IsStr m a ys
    → length xs < fuel
    → (r : Option ℕ) × (strpbrk_loop fuel m s a (length ys) ≡ some r)
      × IsFirst m (one_of ys) s (s + length xs) r
unfolding strpbrk_loop
strpbrk_loop-IsFirst [] ys zero m s a is js h = absurd (omega arith)
strpbrk_loop-IsFirst (x ∷ xs) ys zero m s a is js h = absurd (omega arith)
strpbrk_loop-IsFirst [] ys (suc fuel) m s a is js h =
    (none, ground arith, λ a p q. absurd (omega arith))
strpbrk_loop-IsFirst (x ∷ xs) ys (suc fuel) m s a is js h = elim (Bool-cases (one_of ys (m s))) [
  | inl hit ↦ (
    some s,
    ground (arith, accepts-one_of ys m (m s) a js),
    (omega arith, omega arith, hit, λ b p q. absurd (omega arith)),
  )
  | inr miss ↦
      let (r, e, f) = strpbrk_loop-IsFirst xs ys fuel m (s + 1) a is.3 js (omega arith) in
      (
        r,
        ground (arith, accepts-one_of ys m (m s) a js),
        IsFirst-step m (one_of ys) s (s + suc (length xs)) r miss
            (subst (λ t. IsFirst m (one_of ys) (s + 1) t r) (omega arith) f),
      )
]

-- With fuel for both strings, `strpbrk` returns the first address of the string at `s` that holds
-- one of the bytes of the string `accept`, and NULL only if none does.
strpbrk-IsFirst :
    (xs ys : List ℕ) (fuel : ℕ) (m : Mem) (s a : ℕ)
    → IsStr m s xs
    → IsStr m a ys
    → length xs < fuel
    → length ys < fuel
    → (r : Option ℕ) × (strpbrk fuel m s a ≡ some r) × IsFirst m (one_of ys) s (s + length xs) r
unfolding strpbrk
strpbrk-IsFirst xs ys fuel m s a is js h k =
    rw (strlen-length ys fuel m a js k, strpbrk) (strpbrk_loop-IsFirst xs ys fuel m s a is js h)
