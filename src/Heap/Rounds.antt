-- ===== src/Heap/Rounds.antt =====
-- The rings that `kmalloc` of src/mm/kmalloc.c goes round, on a row of tiles.
use janus.Base.{
  ℕ, suc, ◌+◌, ◌≤◌, ◌≡◌, refl, sym, subst, ◌∙◌, ap, inl, inr, List, [], ◌∷◌, ◌++◌, arith, length,
  length-append,
}
use janus.Heap.{Heap, base}
use janus.Heap.Fit.{Ring}
use janus.Heap.Tiles.{Tile, free, used, width, widths, FreeAt}
use janus.Heap.Rows.{Tiled, FreeAt-left, FreeAt-right}
use janus.Heap.Rings.{
  frees, In, In-left, In-right, In-append, In-frees, FreeAt-In, length-frees, Ring-base,
  Ring-behind,
}
use janus.Heap.Taking.{IsFree}

-- A ring of the heap: it starts behind `f`, holds the free blocks and no others.
pub record Round (h : Heap) (n f : ℕ) (ts : List Tile) (ps : List ℕ) : Type 0 where
  pub ring : Ring h f f ps
  pub short : length ps ≤ suc (length ts)
  pub free_in : (b : ℕ) → IsFree b n ts → In b ps
  pub in_free : (b : ℕ) → In b ps → IsFree b n ts

-- A free tile and the tiles before and behind it.
pub data SplitFree (b a : ℕ) (ts : List Tile) : Type 0 where
  between :
      (ls : List Tile) (m : ℕ) (rs : List Tile)
      → ts ≡ ls ++ free m ∷ rs
      → b ≡ a + widths ls
      → SplitFree b a ts

SplitFree-behind :
    (b a : ℕ) (t : Tile) (ts : List Tile) → SplitFree b (a + width t) ts → SplitFree b a (t ∷ ts)
SplitFree-behind b a t ts (between ls m rs e i) =
    between (t ∷ ls) m rs (ap (λ x. t ∷ x) e) (omega (arith, i))

pub FreeAt-SplitFree : (b a : ℕ) (ts : List Tile) → FreeAt b a ts → SplitFree b a ts
FreeAt-SplitFree b a [] i = absurd i
FreeAt-SplitFree b a (free n ∷ ts) (inl e) = between [] n ts refl (omega (arith, e))
FreeAt-SplitFree b a (free n ∷ ts) (inr i) =
    SplitFree-behind b a (free n) ts (FreeAt-SplitFree b (a + n) ts i)
FreeAt-SplitFree b a (used n ∷ ts) i =
    SplitFree-behind b a (used n) ts (FreeAt-SplitFree b (a + n) ts i)

round_base :
    (h : Heap) (n : ℕ) (ts : List Tile)
    → Tiled h n ts
    → Round h n base ts (frees (base + n) ts ++ base ∷ [])
round_base h n ts t = record {
  ring = Ring-base h n ts t.room t.links;
  short =
      omega (arith, length-append (frees (base + n) ts) (base ∷ []), length-frees (base + n) ts);
  free_in = λ b i. elim i [
    | inl e ↦ In-right b (frees (base + n) ts) (base ∷ []) (inl e)
    | inr j ↦ In-left b (frees (base + n) ts) (base ∷ []) (FreeAt-In b (base + n) ts j)
  ];
  in_free = λ b i. elim (In-append b (frees (base + n) ts) (base ∷ []) i) [
    | inl j ↦ inr (In-frees b (base + n) ts j)
    | inr j ↦ elim j [ inl e ↦ inl e | inr z ↦ absurd z ]
  ];
}

frees-append :
    (a : ℕ) (ls ts : List Tile) → frees a (ls ++ ts) ≡ frees a ls ++ frees (a + widths ls) ts
frees-append a [] ts = ap (λ x. frees x ts) (omega arith)
frees-append a (free n ∷ ls) ts =
    ap (λ x. a ∷ x)
      (frees-append (a + n) ls ts ∙ ap (λ x. frees (a + n) ls ++ frees x ts) (omega arith))
frees-append a (used n ∷ ls) ts =
    frees-append (a + n) ls ts ∙ ap (λ x. frees (a + n) ls ++ frees x ts) (omega arith)

round_behind :
    (h : Heap) (n m : ℕ) (ls rs : List Tile)
    → Tiled h n (ls ++ free m ∷ rs)
    → (let f = base + n + widths ls in
        Round h n f
          (ls ++ free m ∷ rs)
          (frees (f + m) rs ++ (base ∷ (frees (base + n) ls ++ f ∷ []))))
round_behind h n m ls rs t =
    let a = base + n in
    let f = a + widths ls in
    let ts = free m ∷ rs in
    let xs = frees (f + m) rs in
    let ys = frees a ls in
    record {
      ring = Ring-behind h n m ls rs t.room t.heads t.links;
      short = omega (
        arith,
        length-append xs (base ∷ (ys ++ f ∷ [])),
        length-append ys (f ∷ []),
        length-append ls ts,
        length-frees (f + m) rs,
        length-frees a ls,
      );
      free_in = λ b i. elim i [
        | inl e ↦ In-right b xs (base ∷ (ys ++ f ∷ [])) (inl e)
        | inr j ↦
            elim (In-append b ys (f ∷ xs)
              (subst (λ x. In b x) (frees-append a ls ts) (FreeAt-In b a (ls ++ ts) j))) [
                | inl k ↦ In-right b xs (base ∷ (ys ++ f ∷ [])) (inr (In-left b ys (f ∷ []) k))
                | inr k ↦ elim k [
                  | inl e ↦
                      In-right b xs (base ∷ (ys ++ f ∷ [])) (inr (In-right b ys (f ∷ []) (inl e)))
                  | inr k' ↦ In-left b xs (base ∷ (ys ++ f ∷ [])) k'
                ]
              ]
      ];
      in_free = λ b i. elim (In-append b xs (base ∷ (ys ++ f ∷ [])) i) [
        | inl j ↦ inr (FreeAt-right b a ls ts (inr (In-frees b (f + m) rs j)))
        | inr j ↦ elim j [
          | inl e ↦ inl e
          | inr k ↦ elim (In-append b ys (f ∷ []) k) [
            | inl k' ↦ inr (FreeAt-left b a ls ts (In-frees b a ls k'))
            | inr k' ↦ elim k' [ inl e ↦ inr (FreeAt-right b a ls ts (inl e)) | inr z ↦ absurd z ]
          ]
        ]
      ];
    }

round_split :
    (h : Heap) (n f : ℕ) (ts : List Tile)
    → Tiled h n ts
    → SplitFree f (base + n) ts
    → (ps : List ℕ) × Round h n f ts ps
round_split h n f ts t (between ls m rs e i) =
    let g = base + n + widths ls in
    let ps = frees (g + m) rs ++ (base ∷ (frees (base + n) ls ++ g ∷ [])) in
    (
      ps,
      subst (λ x. Round h n x ts ps) (sym i)
          (subst (λ x. Round h n g x ps) (sym e)
            (round_behind h n m ls rs (subst (λ x. Tiled h n x) e t))),
    )

pub round :
    (h : Heap) (n f : ℕ) (ts : List Tile)
    → Tiled h n ts
    → IsFree f n ts
    → (ps : List ℕ) × Round h n f ts ps
round h n f ts t (inl e) = (
  frees (base + n) ts ++ base ∷ [],
  subst (λ x. Round h n x ts (frees (base + n) ts ++ base ∷ [])) (sym e) (round_base h n ts t),
)
round h n f ts t (inr i) = round_split h n f ts t (FreeAt-SplitFree f (base + n) ts i)
