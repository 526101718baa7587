-- ===== src/Heap/Live.antt =====
-- Any sequence of calls of `kmalloc` and `kfree` of src/mm/kmalloc.c: the blocks in use.
use janus.Base.{
  ℕ, ◌+◌, ◌-◌, ◌≤◌, ◌≡◌, ◌≢◌, sym, subst, ◌∙◌, ◌⊎◌, inl, inr, none, some, List, [], ◌∷◌, arith,
  ◌==◌, Bool-cases, true, false, if◌then◌else◌,
}
use janus.Heap.{Heap, base, units, kmalloc, kfree}
use janus.Heap.Tiles.{Tile, free, used, Headed}
use janus.Heap.Rows.{Tiled, Taken, all, tail_end, behind, join, release}
use janus.Heap.Rings.{In}
use janus.Heap.Freeing.{UsedAt}

-- The blocks less one.
abbrev pub without : ℕ → List ℕ → List ℕ
without b [] = []
without b (c ∷ cs) = let rest = without b cs in if c == b then rest else c ∷ rest

-- One call, on the heap and the headers of the blocks in use: a request, which is not of exactly the
-- units of the first block, that is met or is not; or the release of a block in use.
pub data Step (fuel : ℕ) (h : Heap) (live : List ℕ) (h' : Heap) (live' : List ℕ) : Type 0 where
  met :
      (nbytes a : ℕ)
      → h.size base ≢ units nbytes
      → kmalloc fuel h nbytes ≡ some (some a, h')
      → live' ≡ (a - 1) ∷ live
      → Step fuel h live h' live'
  refused :
      (nbytes : ℕ)
      → h.size base ≢ units nbytes
      → kmalloc fuel h nbytes ≡ some (none, h')
      → live' ≡ live
      → Step fuel h live h' live'
  freed :
      (b : ℕ)
      → In b live
      → kfree fuel h (b + 1) ≡ some h'
      → live' ≡ without b live
      → Step fuel h live h' live'

pub data Reach (fuel : ℕ) (h : Heap) (live : List ℕ) : Heap → List ℕ → Type 0 where
  here : Reach fuel h live h live
  next :
      {h1 h2 : Heap} {live1 live2 : List ℕ}
      → Reach fuel h live h1 live1
      → Step fuel h1 live1 h2 live2
      → Reach fuel h live h2 live2

-- The blocks in use are those of the row.
pub record Held (h : Heap) (live : List ℕ) (n : ℕ) (ts : List Tile) : Type 0 where
  pub tiled : Tiled h n ts
  pub in_row : (b : ℕ) → In b live → UsedAt b base (free n ∷ ts)
  pub in_live : (b : ℕ) → UsedAt b base (free n ∷ ts) → In b live

pub UsedAt-ge : (b a : ℕ) (ts : List Tile) → UsedAt b a ts → a ≤ b
UsedAt-ge b a [] i = absurd i
UsedAt-ge b a (free n ∷ ts) i = omega (arith, UsedAt-ge b (a + n) ts i)
UsedAt-ge b a (used n ∷ ts) (inl e) = omega (arith, e)
UsedAt-ge b a (used n ∷ ts) (inr i) = omega (arith, UsedAt-ge b (a + n) ts i)

-- What is in use after a block was taken.
pub UsedAt-Taken :
    (u b c a : ℕ) (ts ts' : List Tile)
    → Taken u b a ts ts'
    → UsedAt c a ts'
    → (c ≡ b) ⊎ UsedAt c a ts
UsedAt-Taken u b c _ _ _ (all ts) (inl e) = inl e
UsedAt-Taken u b c _ _ _ (all ts) (inr i) = inr i
UsedAt-Taken u b c _ _ _ (tail_end a m ts e w) (inl i) = inl (i ∙ sym e)
UsedAt-Taken u b c _ _ _ (tail_end a m ts e w) (inr i) =
    inr (subst (λ x. UsedAt c x ts) (omega arith) i)
UsedAt-Taken u b c _ _ _ (behind a (free n) ts ts' t) i = UsedAt-Taken u b c (a + n) ts ts' t i
UsedAt-Taken u b c _ _ _ (behind a (used n) ts ts' t) (inl e) = inr (inl e)
UsedAt-Taken u b c _ _ _ (behind a (used n) ts ts' t) (inr i) =
    elim (UsedAt-Taken u b c (a + n) ts ts' t i) [ inl e ↦ inl e | inr j ↦ inr (inr j) ]

pub Taken-UsedAt :
    (u b c a : ℕ) (ts ts' : List Tile)
    → Taken u b a ts ts'
    → (c ≡ b) ⊎ UsedAt c a ts
    → UsedAt c a ts'
Taken-UsedAt u b c _ _ _ (all ts) i = i
Taken-UsedAt u b c _ _ _ (tail_end a m ts e w) (inl i) = inl (i ∙ e)
Taken-UsedAt u b c _ _ _ (tail_end a m ts e w) (inr i) =
    inr (subst (λ x. UsedAt c x ts) (omega arith) i)
Taken-UsedAt u b c _ _ _ (behind a (free n) ts ts' t) i = Taken-UsedAt u b c (a + n) ts ts' t i
Taken-UsedAt u b c _ _ _ (behind a (used n) ts ts' t) (inl e) =
    inr (Taken-UsedAt u b c (a + n) ts ts' t (inl e))
Taken-UsedAt u b c _ _ _ (behind a (used n) ts ts' t) (inr (inl e)) = inl e
Taken-UsedAt u b c _ _ _ (behind a (used n) ts ts' t) (inr (inr i)) =
    inr (Taken-UsedAt u b c (a + n) ts ts' t (inr i))

-- A join keeps what is in use.
join-UsedAt : (c a : ℕ) (t : Tile) (ts : List Tile) → UsedAt c a (t ∷ ts) → UsedAt c a (join t ts)
join-UsedAt c a (free n) [] i = i
join-UsedAt c a (free n) (free m ∷ ts) i = subst (λ x. UsedAt c x ts) (omega arith) i
join-UsedAt c a (free n) (used m ∷ ts) i = i
join-UsedAt c a (used n) ts i = i

UsedAt-join : (c a : ℕ) (t : Tile) (ts : List Tile) → UsedAt c a (join t ts) → UsedAt c a (t ∷ ts)
UsedAt-join c a (free n) [] i = i
UsedAt-join c a (free n) (free m ∷ ts) i = subst (λ x. UsedAt c x ts) (omega arith) i
UsedAt-join c a (free n) (used m ∷ ts) i = i
UsedAt-join c a (used n) ts i = i

pub release-UsedAt :
    (b c a : ℕ) (ts : List Tile) → c ≢ b → UsedAt c a ts → UsedAt c a (release a b ts)
release-UsedAt b c a [] ne i = i
release-UsedAt b c a (free n ∷ ts) ne i = elim (Bool-cases (a == b)) [
  | inl e ↦ rw e (join-UsedAt c a (free n) ts i)
  | inr e ↦
      rw e (join-UsedAt c a (free n) (release (a + n) b ts) (release-UsedAt b c (a + n) ts ne i))
]
release-UsedAt b c a (used n ∷ ts) ne (inl j) =
    let e : (a == b) ≡ false = ground (arith, j, ne) in rw e (inl j)
release-UsedAt b c a (used n ∷ ts) ne (inr i) = elim (Bool-cases (a == b)) [
  | inl e ↦ rw e (join-UsedAt c a (free n) ts i)
  | inr e ↦ rw e (inr (release-UsedAt b c (a + n) ts ne i))
]

used_rest :
    (c a n : ℕ) (ts : List Tile) → UsedAt c a (join (used n) ts) → (c ≡ a) ⊎ UsedAt c (a + n) ts
used_rest c a n ts i = i

pub UsedAt-release :
    (s : ℕ → ℕ) (b c a : ℕ) (ts : List Tile)
    → Headed s a ts
    → UsedAt b a ts
    → UsedAt c a (release a b ts)
    → UsedAt c a ts × (c ≢ b)
UsedAt-release s b c a [] h i j = absurd i
UsedAt-release s b c a (free n ∷ ts) (k, w, h) i j =
    let e : (a == b) ≡ false = (let g = UsedAt-ge b (a + n) ts i in ground arith) in
    UsedAt-release s b c (a + n) ts h i
      (UsedAt-join c a (free n) (release (a + n) b ts) (rw e at j))
UsedAt-release s b c a (used n ∷ ts) (k, w, h) (inl i) j =
    let e : (a == b) ≡ true = ground arith in
    let j' = UsedAt-join c a (free n) ts (rw e at j) in
    (inr j', λ z. let g = UsedAt-ge c (a + n) ts j' in omega (arith, g, z, i, w))
UsedAt-release s b c a (used n ∷ ts) (k, w, h) (inr i) j =
    let g = UsedAt-ge b (a + n) ts i in
    let e : (a == b) ≡ false = ground arith in
    elim (used_rest c a n (release (a + n) b ts) (rw e at j)) [
      | inl z ↦ (inl z, λ z'. omega (arith, g, w, z, z'))
      | inr j' ↦ let (x, y) = UsedAt-release s b c (a + n) ts h i j' in (inr x, y)
    ]
