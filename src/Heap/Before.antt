-- ===== src/Heap/Before.antt =====
-- The free block before a free block, and a block taken further on in a row.
use janus.Base.{
  ℕ, ◌+◌, ◌≤◌, ◌<◌, ◌≡◌, sym, subst, ◌∙◌, ap, ◌⊎◌, inl, inr, List, [], ◌∷◌, ◌++◌, arith,
}
use janus.Heap.{base}
use janus.Heap.Tiles.{Tile, free, used, width, widths, Headed, Linked, last_free, FreeAt}
use janus.Heap.Rows.{Taken, behind}
use janus.Heap.Placing.{Linked-next}

-- The links of a row lead to it, or back to the base.
Linked-after :
    (f : ℕ → ℕ) (ts : List Tile) (d a e : ℕ)
    → Linked f d a ts base
    → FreeAt e a ts
    → (f e ≡ base) ⊎ (a ≤ f e)
Linked-after f [] d a e l i = absurd i
Linked-after f (free n ∷ ts) d a e (j, l) (inl i) = elim (Linked-next f ts a (a + n) base l) [
  | inl z ↦ inl (ap f i ∙ z)
  | inr g ↦ inr (subst (λ x. a ≤ f x) (sym i) (omega (arith, g)))
]
Linked-after f (free n ∷ ts) d a e (j, l) (inr i) = elim (Linked-after f ts a (a + n) e l i) [
  | inl z ↦ inl z
  | inr g ↦ inr (omega (arith, g))
]
Linked-after f (used n ∷ ts) d a e l i = elim (Linked-after f ts d (a + n) e l i) [
  | inl z ↦ inl z
  | inr g ↦ inr (omega (arith, g))
]

-- Only the free block before it is linked to a free block.
pub Linked-before :
    (f s : ℕ → ℕ) (ls ts : List Tile) (m d e a : ℕ)
    → Linked f d a (ls ++ free m ∷ ts) base
    → Headed s a (ls ++ free m ∷ ts)
    → base < a
    → (e ≡ d) ⊎ FreeAt e a (ls ++ free m ∷ ts)
    → f e ≡ a + widths ls
    → e ≡ last_free d a ls
Linked-before f s [] ts m d e a l h lt (inl i) g = i
Linked-before f s [] ts m d e a (j, l) (k, w, h) lt (inr (inl i)) g =
    elim (Linked-next f ts a (a + m) base l) [
      | inl z ↦ absurd (let q = ap f i in omega (arith, z, g, lt, q))
      | inr z ↦ absurd (let q = ap f i in omega (arith, z, g, w, q))
    ]
Linked-before f s [] ts m d e a (j, l) (k, w, h) lt (inr (inr i)) g =
    elim (Linked-after f ts a (a + m) e l i) [
      | inl z ↦ absurd (omega (arith, z, g, lt))
      | inr z ↦ absurd (omega (arith, z, g, w))
    ]
Linked-before f s (free n ∷ ls) ts m d e a (j, l) (k, w, h) lt (inl i) g =
    absurd (let q = ap f i in omega (arith, j, g, w, q))
Linked-before f s (free n ∷ ls) ts m d e a (j, l) (k, w, h) lt (inr i) g =
    Linked-before f s ls ts m a e (a + n) l h (omega (arith, lt)) i (omega (arith, g))
Linked-before f s (used n ∷ ls) ts m d e a l (k, w, h) lt i g =
    Linked-before f s ls ts m d e (a + n) l h (omega (arith, lt)) i (omega (arith, g))

pub Taken-append :
    (u b a : ℕ) (ls ts ts' : List Tile)
    → Taken u b (a + widths ls) ts ts'
    → Taken u b a (ls ++ ts) (ls ++ ts')
Taken-append u b a [] ts ts' t = subst (λ x. Taken u b x ts ts') (omega arith) t
Taken-append u b a (t' ∷ ls) ts ts' t =
    behind a t' (ls ++ ts) (ls ++ ts')
      (Taken-append u b (a + width t') ls ts ts' (subst (λ x. Taken u b x ts ts') (omega arith) t))
