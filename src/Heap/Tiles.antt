-- ===== src/Heap/Tiles.antt =====
-- The kernel's memory as a row of tiles, free and in use: what the headers of src/mm/kmalloc.c say
-- of a row that begins at some address.
use janus.Base.{ℕ, ◌+◌, ◌≤◌, ◌<◌, ◌≡◌, refl, ◌⊎◌, List, [], ◌∷◌, ◌++◌, arith, ◌∙◌, ap, subst}

-- A block of so many units, its header among them.
pub data Tile : Type 0 where
  free : ℕ → Tile
  used : ℕ → Tile

abbrev pub width : Tile → ℕ
width (free n) = n
width (used n) = n

abbrev pub widths : List Tile → ℕ
widths [] = 0
widths (t ∷ ts) = width t + widths ts

-- Each tile has its size in its header.
abbrev pub Headed : (size : ℕ → ℕ) (a : ℕ) → List Tile → Type 0
Headed s a [] = Unit
Headed s a (t ∷ ts) = (s a ≡ width t) × (0 < width t) × Headed s (a + width t) ts

-- From the free block `d` on, the links lead through the free tiles, and then to `z`.
abbrev pub Linked : (ptr : ℕ → ℕ) (d a : ℕ) → List Tile → (z : ℕ) → Type 0
Linked f d a [] z = f d ≡ z
Linked f d a (free n ∷ ts) z = (f d ≡ a) × Linked f a (a + n) ts z
Linked f d a (used n ∷ ts) z = Linked f d (a + n) ts z

-- The last free block of a row, where `d` is the one before it.
abbrev pub last_free : (d a : ℕ) → List Tile → ℕ
last_free d a [] = d
last_free d a (free n ∷ ts) = last_free a (a + n) ts
last_free d a (used n ∷ ts) = last_free d (a + n) ts

-- `b` is a free tile of the row.
abbrev pub FreeAt : (b a : ℕ) → List Tile → Type 0
FreeAt b a [] = ⊥
FreeAt b a (free n ∷ ts) = (b ≡ a) ⊎ FreeAt b (a + n) ts
FreeAt b a (used n ∷ ts) = FreeAt b (a + n) ts

-- No free tile is next to another.
abbrev pub Parted : Tile → List Tile → Type 0
Parted (free n) (free m ∷ ts) = ⊥
Parted (free n) (used m ∷ ts) = Unit
Parted (free n) [] = Unit
Parted (used n) ts = Unit

abbrev pub Coalesced : List Tile → Type 0
Coalesced [] = Unit
Coalesced (t ∷ ts) = Parted t ts × Coalesced ts

pub widths-append : (ls ts : List Tile) → widths (ls ++ ts) ≡ widths ls + widths ts
widths-append [] ts = omega arith
widths-append (t ∷ ls) ts = omega (arith, widths-append ls ts)

module _ (s : ℕ → ℕ) where
  pub Headed-left : (ls ts : List Tile) (a : ℕ) → Headed s a (ls ++ ts) → Headed s a ls
  Headed-left [] ts a h = tt
  Headed-left (t ∷ ls) ts a h = (h.0, h.1, Headed-left ls ts (a + width t) h.2)

  pub Headed-right :
      (ls ts : List Tile) (a : ℕ) → Headed s a (ls ++ ts) → Headed s (a + widths ls) ts
  Headed-right [] ts a h = subst (λ x. Headed s x ts) (omega arith) h
  Headed-right (t ∷ ls) ts a h =
      subst (λ x. Headed s x ts) (omega arith) (Headed-right ls ts (a + width t) h.2)

  pub Headed-append :
      (ls ts : List Tile) (a : ℕ)
      → Headed s a ls
      → Headed s (a + widths ls) ts
      → Headed s a (ls ++ ts)
  Headed-append [] ts a h k = subst (λ x. Headed s x ts) (omega arith) k
  Headed-append (t ∷ ls) ts a h k =
      (h.0, h.1, Headed-append ls ts (a + width t) h.2 (subst (λ x. Headed s x ts) (omega arith) k))

  -- The last free block of a row ends in it.
  pub last_free-end :
      (ts : List Tile) (d a : ℕ)
      → d + s d ≤ a
      → Headed s a ts
      → last_free d a ts + s (last_free d a ts) ≤ a + widths ts
  last_free-end [] d a l h = omega (arith, l)
  last_free-end (free n ∷ ts) d a l (e, w, h) =
      omega (arith, last_free-end ts a (a + n) (omega (arith, e)) h)
  last_free-end (used n ∷ ts) d a l (e, w, h) =
      omega (arith, last_free-end ts d (a + n) (omega (arith, l)) h)

-- Headers that are as they were, in the row.
pub Headed-agree :
    (s g : ℕ → ℕ) (ts : List Tile) (a : ℕ)
    → ((x : ℕ) → a ≤ x → x < a + widths ts → g x ≡ s x)
    → Headed s a ts
    → Headed g a ts
Headed-agree s g [] a same h = tt
Headed-agree s g (t ∷ ts) a same (e, w, h) = (
  same a (omega arith) (omega (arith, w)) ∙ e,
  w,
  Headed-agree s g ts (a + width t) (λ x lo hi. same x (omega (arith, lo)) (omega (arith, hi))) h,
)

-- From a block with the same link on.
pub Linked-agree :
    (f g : ℕ → ℕ) (ts : List Tile) (d e a z : ℕ)
    → g e ≡ f d
    → ((x : ℕ) → a ≤ x → g x ≡ f x)
    → Linked f d a ts z
    → Linked g e a ts z
Linked-agree f g [] d e a z i same l = i ∙ l
Linked-agree f g (free n ∷ ts) d e a z i same (j, l) = (
  i ∙ j,
  Linked-agree f g ts a a (a + n) z (same a (omega arith)) (λ x lo. same x (omega (arith, lo))) l,
)
Linked-agree f g (used n ∷ ts) d e a z i same l =
    Linked-agree f g ts d e (a + n) z i (λ x lo. same x (omega (arith, lo))) l

pub last_free-ge : (ls : List Tile) (d a : ℕ) → d ≤ a → d ≤ last_free d a ls
last_free-ge [] d a l = omega arith
last_free-ge (free n ∷ ls) d a l = omega (arith, last_free-ge ls a (a + n) (omega arith), l)
last_free-ge (used n ∷ ls) d a l = last_free-ge ls d (a + n) (omega (arith, l))

pub last_free-below :
    (s : ℕ → ℕ) (ls : List Tile) (d a : ℕ)
    → d < a
    → Headed s a ls
    → last_free d a ls < a + widths ls
last_free-below s [] d a l h = omega (arith, l)
last_free-below s (free n ∷ ls) d a l (e, w, h) =
    omega (arith, last_free-below s ls a (a + n) (omega (arith, w)) h)
last_free-below s (used n ∷ ls) d a l (e, w, h) =
    omega (arith, last_free-below s ls d (a + n) (omega (arith, l)) h)

pub last_free-append :
    (ls ts : List Tile) (d a : ℕ)
    → last_free d a (ls ++ ts) ≡ last_free (last_free d a ls) (a + widths ls) ts
last_free-append [] ts d a = ap (λ x. last_free d x ts) (omega arith)
last_free-append (free n ∷ ls) ts d a =
    last_free-append ls ts a (a + n)
    ∙ ap (λ x. last_free (last_free a (a + n) ls) x ts) (omega arith)
last_free-append (used n ∷ ls) ts d a =
    last_free-append ls ts d (a + n)
    ∙ ap (λ x. last_free (last_free d (a + n) ls) x ts) (omega arith)

-- The last link of a row made to lead elsewhere.
pub Linked-relink :
    (s f g : ℕ → ℕ) (ls : List Tile) (d a z v : ℕ)
    → d < a
    → Headed s a ls
    → ((x : ℕ) → x < last_free d a ls → g x ≡ f x)
    → g (last_free d a ls) ≡ v
    → Linked f d a ls z
    → Linked g d a ls v
Linked-relink s f g [] d a z v lt h same e l = e
Linked-relink s f g (free n ∷ ls) d a z v lt (i, w, h) same e (j, l) = (
  same d (omega (arith, lt, last_free-ge ls a (a + n) (omega arith))) ∙ j,
  Linked-relink s f g ls a (a + n) z v (omega (arith, w)) h same e l,
)
Linked-relink s f g (used n ∷ ls) d a z v lt (i, w, h) same e l =
    Linked-relink s f g ls d (a + n) z v (omega (arith, lt)) h same e l

pub Linked-left :
    (f : ℕ → ℕ) (ls ts : List Tile) (d a z : ℕ)
    → Linked f d a (ls ++ ts) z
    → Linked f d a ls (f (last_free d a ls))
Linked-left f [] ts d a z l = refl
Linked-left f (free n ∷ ls) ts d a z (j, l) = (j, Linked-left f ls ts a (a + n) z l)
Linked-left f (used n ∷ ls) ts d a z l = Linked-left f ls ts d (a + n) z l

pub Linked-right :
    (f : ℕ → ℕ) (ls ts : List Tile) (d a z : ℕ)
    → Linked f d a (ls ++ ts) z
    → Linked f (last_free d a ls) (a + widths ls) ts z
Linked-right f [] ts d a z l = subst (λ x. Linked f d x ts z) (omega arith) l
Linked-right f (free n ∷ ls) ts d a z (j, l) =
    subst (λ x. Linked f (last_free a (a + n) ls) x ts z) (omega arith)
      (Linked-right f ls ts a (a + n) z l)
Linked-right f (used n ∷ ls) ts d a z l =
    subst (λ x. Linked f (last_free d (a + n) ls) x ts z) (omega arith)
      (Linked-right f ls ts d (a + n) z l)

pub Linked-append :
    (f : ℕ → ℕ) (ls ts : List Tile) (d a w z : ℕ)
    → Linked f d a ls w
    → Linked f (last_free d a ls) (a + widths ls) ts z
    → Linked f d a (ls ++ ts) z
Linked-append f [] ts d a w z l r = subst (λ x. Linked f d x ts z) (omega arith) r
Linked-append f (free n ∷ ls) ts d a w z (j, l) r = (
  j,
  Linked-append f ls ts a (a + n) w z l
      (subst (λ x. Linked f (last_free a (a + n) ls) x ts z) (omega arith) r),
)
Linked-append f (used n ∷ ls) ts d a w z l r =
    Linked-append f ls ts d (a + n) w z l
      (subst (λ x. Linked f (last_free d (a + n) ls) x ts z) (omega arith) r)
