-- ===== src/Memory/Laws.antt =====
-- What a write to memory changes, and what it leaves alone.
use janus.Base.{
  ℕ, zero, suc, ◌+◌, ◌%◌, ◌≤◌, ◌<◌, ◌≡◌, ◌≢◌, ◌⊎◌, inl, inr, refl, ◌∙◌, ap, List, [], ◌∷◌, ◌++◌,
  arith, length, get_or,
}
use janus.Memory.{Mem, store, poke, IsStr}

pub store_self : (m : Mem) (p v : ℕ) → store m p v p ≡ v % 256
unfolding store
store_self m p v = ground arith

pub store_ne : (m : Mem) (p v a : ℕ) → a ≢ p → store m p v a ≡ m a
unfolding store
store_ne m p v a h = ground arith

-- Below and above the bytes written nothing changes.
pub poke_below : (m : Mem) (p : ℕ) (xs : List ℕ) (a : ℕ) → a < p → poke m p xs a ≡ m a
unfolding poke
poke_below m p [] a h = refl
poke_below m p (x ∷ xs) a h =
    poke_below (store m p x) (p + 1) xs a (omega arith) ∙ store_ne m p x a (omega arith)

pub poke_above : (m : Mem) (p : ℕ) (xs : List ℕ) (a : ℕ) → p + length xs ≤ a → poke m p xs a ≡ m a
unfolding poke
poke_above m p [] a h = refl
poke_above m p (x ∷ xs) a h =
    poke_above (store m p x) (p + 1) xs a (omega arith) ∙ store_ne m p x a (omega arith)

pub poke_inside :
    (m : Mem) (p : ℕ) (xs : List ℕ) (i : ℕ)
    → i < length xs
    → poke m p xs (p + i) ≡ get_or xs i 0 % 256
unfolding poke
poke_inside m p [] i h = absurd (omega arith)
poke_inside m p (x ∷ xs) zero h =
    ap (poke (store m p x) (p + 1) xs) (omega arith)
    ∙ poke_below (store m p x) (p + 1) xs p (omega arith)
    ∙ store_self m p x
poke_inside m p (x ∷ xs) (suc i) h =
    ap (poke (store m p x) (p + 1) xs) (omega arith)
    ∙ poke_inside (store m p x) (p + 1) xs i (omega arith)

pub poke-append :
    (m : Mem) (p : ℕ) (xs ys : List ℕ) → poke m p (xs ++ ys) ≡ poke (poke m p xs) (p + length xs) ys
unfolding poke
poke-append m p [] ys = ap (λ q. poke m q ys) (omega arith)
poke-append m p (x ∷ xs) ys =
    poke-append (store m p x) (p + 1) xs ys
    ∙ ap (λ q. poke (poke (store m p x) (p + 1) xs) q ys) (omega arith)

-- A string survives a write that misses it and its NUL.
pub IsStr-agree :
    (m m' : Mem) (p : ℕ) (xs : List ℕ)
    → ((a : ℕ) → p ≤ a → a ≤ p + length xs → m' a ≡ m a)
    → IsStr m p xs
    → IsStr m' p xs
IsStr-agree m m' p [] same s = same p (omega arith) (omega arith) ∙ s
IsStr-agree m m' p (x ∷ xs) same s = (
  same p (omega arith) (omega arith) ∙ s.0,
  s.1,
  s.2,
  IsStr-agree m m' (p + 1) xs (λ a h k. same a (omega arith) (omega arith)) s.3,
)

pub IsStr-store :
    (m : Mem) (q v p : ℕ) (xs : List ℕ)
    → (q < p) ⊎ (p + length xs < q)
    → IsStr m p xs
    → IsStr (store m q v) p xs
IsStr-store m q v p xs away =
    IsStr-agree m (store m q v) p xs (λ a h k. store_ne m q v a (omega arith))

-- What `poke` has written of a string is that string.
pub IsStr-poke :
    (m n : Mem) (q : ℕ) (p : ℕ) (xs : List ℕ) → IsStr n q xs → IsStr (poke m p (xs ++ 0 ∷ [])) p xs
unfolding poke
IsStr-poke m n q p [] s = store_self m p 0
IsStr-poke m n q p (x ∷ xs) s = (
  poke_below (store m p x) (p + 1) (xs ++ 0 ∷ []) p (omega arith) ∙ store_self m p x ∙ s.2,
  s.1,
  s.2,
  IsStr-poke (store m p x) n (q + 1) (p + 1) xs s.3,
)

length_snoc : (xs : List ℕ) → length (xs ++ 0 ∷ []) ≡ length xs + 1
length_snoc [] = omega arith
length_snoc (x ∷ xs) = omega (arith, length_snoc xs)

-- A string written with its NUL changes nothing outside these bytes.
pub poke_outside :
    (m : Mem) (d : ℕ) (xs : List ℕ) (a : ℕ)
    → (a < d) ⊎ (d + length xs < a)
    → poke m d (xs ++ 0 ∷ []) a ≡ m a
poke_outside m d xs a (inl h) = poke_below m d (xs ++ 0 ∷ []) a h
poke_outside m d xs a (inr h) = poke_above m d (xs ++ 0 ∷ []) a (omega (arith, length_snoc xs))
