-- ===== src/Heap/Placing.antt =====
-- The search of `kfree` in src/mm/kmalloc.c over a row of tiles whose first, at `base`, is free.
use janus.Base.{
  ℕ, zero, suc, ◌+◌, ◌≤◌, ◌<◌, ◌≡◌, refl, sym, subst, ◌⊎◌, inl, inr, some, List, [], ◌∷◌, ◌++◌,
  arith, true, false, ltb, leb, length, ◌∙◌,
}
use janus.Heap.{Heap, base, place}
use janus.Heap.Tiles.{Tile, free, used, widths, Headed, Linked, last_free, FreeAt}

-- From a free block on the links go up, or back to the base.
pub Linked-next :
    (f : ℕ → ℕ) (ts : List Tile) (d a z : ℕ) → Linked f d a ts z → (f d ≡ z) ⊎ (a ≤ f d)
Linked-next f [] d a z l = inl l
Linked-next f (free n ∷ ts) d a z l = inr (omega (arith, l.0))
Linked-next f (used n ∷ ts) d a z l = elim (Linked-next f ts d (a + n) z l) [
  | inl e ↦ inl e
  | inr g ↦ inr (omega (arith, g))
]

-- The gap that the search stops at: its block is the last before `bp`, the next one behind `bp`, or
-- the base again.
place-stop :
    (fuel : ℕ) (h : Heap) (bp p : ℕ)
    → p < bp
    → base ≤ p
    → (h.ptr p ≡ base) ⊎ (bp < h.ptr p)
    → place (suc fuel) h bp p ≡ some p
unfolding place
place-stop fuel h bp p lt le (inl e) =
    let below : ltb p bp ≡ true = ground arith in
    let back : ltb bp (h.ptr p) ≡ false = ground arith in
    let round : leb (h.ptr p) p ≡ true = ground arith in rw (below, back, round) refl
place-stop fuel h bp p lt le (inr g) =
    let below : ltb p bp ≡ true = ground arith in
    let behind : ltb bp (h.ptr p) ≡ true = ground arith in rw (below, behind) refl

-- Where both blocks are before `bp`, or both behind it, the search goes on.
place-go :
    (fuel : ℕ) (h : Heap) (bp p q : ℕ)
    → h.ptr p ≡ q
    → p < q
    → (q ≤ bp) ⊎ (bp < p)
    → place (suc fuel) h bp p ≡ place fuel h bp q
unfolding place
place-go fuel h bp p q e lt (inl g) =
    let no : ltb bp (h.ptr p) ≡ false = ground arith in
    let up : leb (h.ptr p) p ≡ false = ground arith in
    let below : ltb p bp ≡ true = ground arith in rw (no, up, below) (rw e refl)
place-go fuel h bp p q e lt (inr g) =
    let no : ltb p bp ≡ false = ground arith in
    let up : leb (h.ptr p) p ≡ false = ground arith in rw (no, up) (rw e refl)

place-round :
    (fuel : ℕ) (h : Heap) (bp p : ℕ)
    → h.ptr p ≡ base
    → bp < p
    → base < bp
    → place (suc fuel) h bp p ≡ place fuel h bp base
unfolding place
place-round fuel h bp p e lt b =
    let no : ltb p bp ≡ false = ground arith in
    let not_first : ltb bp (h.ptr p) ≡ false = ground arith in
    let round : leb (h.ptr p) p ≡ true = ground arith in rw (no, not_first, round) (rw e refl)

-- From a block before `bp`: up to the last free block before it.
place_up :
    (ls rs : List Tile) (n fuel : ℕ) (h : Heap) (bp d a : ℕ)
    → Linked h.ptr d a (ls ++ used n ∷ rs) base
    → Headed h.size a (ls ++ used n ∷ rs)
    → d < a
    → base ≤ d
    → bp ≡ a + widths ls
    → length ls < fuel
    → place fuel h bp d ≡ some (last_free d a ls)
place_up ls rs n zero h bp d a k hd lt le e fu = absurd (omega (arith, fu))
place_up [] rs n (suc fuel) h bp d a k (x, w, hd) lt le e fu =
    place-stop fuel h bp d (omega (arith, e)) le (elim (Linked-next h.ptr rs d (a + n) base k) [
      | inl z ↦ inl z
      | inr g ↦ inr (omega (arith, g))
    ])
place_up (free m ∷ ls) rs n (suc fuel) h bp d a (j, k) (x, w, hd) lt le e fu =
    place-go fuel h bp d a j lt (inl (omega (arith, e)))
    ∙ place_up ls rs n fuel h bp a (a + m) k hd (omega (arith, w)) (omega arith) (omega (arith, e))
        (omega (arith, fu))
place_up (used m ∷ ls) rs n (suc fuel) h bp d a k (x, w, hd) lt le e fu =
    place_up ls rs n (suc fuel) h bp d (a + m) k hd (omega (arith, lt)) le (omega (arith, e))
      (omega (arith, fu))

-- What the search comes to from the base, with so much fuel or more.
abbrev FromBase : Heap → (bp least r : ℕ) → Type 0
FromBase h bp least r = (fuel : ℕ) → least ≤ fuel → place fuel h bp base ≡ some r

-- From a block behind `bp`: up to the last of all, and round to the base.
place_over :
    (ts : List Tile) (fuel least : ℕ) (h : Heap) (bp d a r : ℕ)
    → FromBase h bp least r
    → Linked h.ptr d a ts base
    → Headed h.size a ts
    → d < a
    → bp < d
    → base < bp
    → length ts + least < fuel
    → place fuel h bp d ≡ some r
place_over ts zero least h bp d a r c k hd lt le b fu = absurd (omega (arith, fu))
place_over [] (suc fuel) least h bp d a r c k hd lt le b fu =
    place-round fuel h bp d k le b ∙ c fuel (omega (arith, fu))
place_over (free m ∷ ts) (suc fuel) least h bp d a r c (j, k) (x, w, hd) lt le b fu =
    place-go fuel h bp d a j lt (inr le)
    ∙ place_over ts fuel least h bp a (a + m) r c k hd (omega (arith, w)) (omega arith) b
        (omega (arith, fu))
place_over (used m ∷ ts) (suc fuel) least h bp d a r c k (x, w, hd) lt le b fu =
    place_over ts (suc fuel) least h bp d (a + m) r c k hd (omega (arith, lt)) le b
      (omega (arith, fu))

place_behind :
    (ts : List Tile) (fuel least : ℕ) (h : Heap) (bp d a f r : ℕ)
    → FromBase h bp least r
    → Linked h.ptr d a ts base
    → Headed h.size a ts
    → bp < a
    → base < bp
    → FreeAt f a ts
    → length ts + least < fuel
    → place fuel h bp f ≡ some r
place_behind [] fuel least h bp d a f r c k hd lt b i fu = elim i [ ]
place_behind (free m ∷ ts) fuel least h bp d a f r c (j, k) (x, w, hd) lt b i fu = elim i [
  | inl e ↦
      subst (λ y. place fuel h bp y ≡ some r) (sym e)
        (place_over ts fuel least h bp a (a + m) r c k hd (omega (arith, w)) lt b
          (omega (arith, fu)))
  | inr i' ↦
      place_behind ts fuel least h bp a (a + m) f r c k hd (omega (arith, lt)) b i'
        (omega (arith, fu))
]
place_behind (used m ∷ ts) fuel least h bp d a f r c k (x, w, hd) lt b i fu =
    place_behind ts fuel least h bp d (a + m) f r c k hd (omega (arith, lt)) b i (omega (arith, fu))

place_at :
    (ls rs : List Tile) (n fuel : ℕ) (h : Heap) (bp d a f : ℕ)
    → Linked h.ptr d a (ls ++ used n ∷ rs) base
    → Headed h.size a (ls ++ used n ∷ rs)
    → d < a
    → base ≤ d
    → bp ≡ a + widths ls
    → f ≡ d
    → length ls < fuel
    → place fuel h bp f ≡ some (last_free d a ls)
place_at ls rs n fuel h bp d a f k hd lt le e g fu =
    subst (λ y. place fuel h bp y ≡ some (last_free d a ls)) (sym g)
      (place_up ls rs n fuel h bp d a k hd lt le e fu)

place_among :
    (ls rs : List Tile) (n fuel least : ℕ) (h : Heap) (bp d a f : ℕ)
    → FromBase h bp least (last_free d a ls)
    → Linked h.ptr d a (ls ++ used n ∷ rs) base
    → Headed h.size a (ls ++ used n ∷ rs)
    → d < a
    → base ≤ d
    → bp ≡ a + widths ls
    → FreeAt f a (ls ++ used n ∷ rs)
    → length ls + length rs + least < fuel
    → place fuel h bp f ≡ some (last_free d a ls)
place_among [] rs n fuel least h bp d a f c k (x, w, hd) lt le e i fu =
    place_behind rs fuel least h bp d (a + n) f d c k hd (omega (arith, e, w))
      (omega (arith, e, lt, le)) i (omega (arith, fu))
place_among (free m ∷ ls) rs n fuel least h bp d a f c (j, k) (x, w, hd) lt le e i fu = elim i [
  | inl g ↦
      place_at ls rs n fuel h bp a (a + m) f k hd (omega (arith, w)) (omega (arith, le, lt))
        (omega (arith, e)) g (omega (arith, fu))
  | inr i' ↦
      place_among ls rs n fuel least h bp a (a + m) f c k hd (omega (arith, w))
        (omega (arith, le, lt)) (omega (arith, e)) i' (omega (arith, fu))
]
place_among (used m ∷ ls) rs n fuel least h bp d a f c k (x, w, hd) lt le e i fu =
    place_among ls rs n fuel least h bp d (a + m) f c k hd (omega (arith, lt)) le (omega (arith, e))
      i (omega (arith, fu))

-- The search from any free block ends at the last free block before `bp`.
pub place-last_free :
    (ls rs : List Tile) (m n fuel : ℕ) (h : Heap) (f : ℕ)
    → Linked h.ptr base (base + m) (ls ++ used n ∷ rs) base
    → Headed h.size (base + m) (ls ++ used n ∷ rs)
    → 0 < m
    → (f ≡ base) ⊎ FreeAt f (base + m) (ls ++ used n ∷ rs)
    → length ls + length rs + suc (length ls) < fuel
    → place fuel h (base + m + widths ls) f ≡ some (last_free base (base + m) ls)
place-last_free ls rs m n fuel h f k hd lt i fu =
    let a = base + m in
    let c : FromBase h (a + widths ls) (suc (length ls)) (last_free base a ls) = λ fuel' l.
      place_up ls rs n fuel' h (a + widths ls) base a k hd (omega (arith, lt)) (omega arith) refl
        l in
    elim i [
      | inl g ↦
          place_at ls rs n fuel h (a + widths ls) base a f k hd (omega (arith, lt)) (omega arith)
            refl g (omega (arith, fu))
      | inr i' ↦
          place_among ls rs n fuel (suc (length ls)) h (a + widths ls) base a f c k hd
            (omega (arith, lt)) (omega arith) refl i' fu
    ]
