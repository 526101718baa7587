-- ===== src/Heap/Rings.antt =====
-- The free tiles of a row as the circular list that `kmalloc` of src/mm/kmalloc.c goes through.
use janus.Base.{
  ℕ, ◌+◌, ◌≤◌, ◌<◌, ◌≡◌, ◌≢◌, refl, sym, ◌∙◌, ap, ◌⊎◌, inl, inr, none, some, List, [], ◌∷◌, ◌++◌,
  arith, true, length, leb, Bool-cases, none-ne-some, some-injective,
}
use janus.Heap.{Heap, base}
use janus.Heap.Tiles.{
  Tile, free, used, widths, Headed, Linked, last_free, FreeAt, Linked-left, Linked-right,
  Headed-left, Headed-right,
}
use janus.Heap.Fit.{Ring, first_fit}

-- The addresses of the free tiles.
abbrev pub frees : (a : ℕ) → List Tile → List ℕ
frees a [] = []
frees a (free n ∷ ts) = a ∷ frees (a + n) ts
frees a (used n ∷ ts) = frees (a + n) ts

abbrev pub In : ℕ → List ℕ → Type 0
In b [] = ⊥
In b (x ∷ xs) = (b ≡ x) ⊎ In b xs

pub In-left : (b : ℕ) (xs ys : List ℕ) → In b xs → In b (xs ++ ys)
In-left b [] ys i = absurd i
In-left b (x ∷ xs) ys (inl e) = inl e
In-left b (x ∷ xs) ys (inr i) = inr (In-left b xs ys i)

pub In-right : (b : ℕ) (xs ys : List ℕ) → In b ys → In b (xs ++ ys)
In-right b [] ys i = i
In-right b (x ∷ xs) ys i = inr (In-right b xs ys i)

pub In-append : (b : ℕ) (xs ys : List ℕ) → In b (xs ++ ys) → In b xs ⊎ In b ys
In-append b [] ys i = inr i
In-append b (x ∷ xs) ys (inl e) = inl (inl e)
In-append b (x ∷ xs) ys (inr i) = elim (In-append b xs ys i) [ inl j ↦ inl (inr j) | inr j ↦ inr j ]

pub In-frees : (b a : ℕ) (ts : List Tile) → In b (frees a ts) → FreeAt b a ts
In-frees b a [] i = i
In-frees b a (free n ∷ ts) (inl e) = inl e
In-frees b a (free n ∷ ts) (inr i) = inr (In-frees b (a + n) ts i)
In-frees b a (used n ∷ ts) i = In-frees b (a + n) ts i

pub FreeAt-In : (b a : ℕ) (ts : List Tile) → FreeAt b a ts → In b (frees a ts)
FreeAt-In b a [] i = i
FreeAt-In b a (free n ∷ ts) (inl e) = inl e
FreeAt-In b a (free n ∷ ts) (inr i) = inr (FreeAt-In b (a + n) ts i)
FreeAt-In b a (used n ∷ ts) i = FreeAt-In b (a + n) ts i

pub length-frees : (a : ℕ) (ts : List Tile) → length (frees a ts) ≤ length ts
length-frees a [] = omega arith
length-frees a (free n ∷ ts) = omega (arith, length-frees (a + n) ts)
length-frees a (used n ∷ ts) = omega (arith, length-frees (a + n) ts)

pub FreeAt-ge : (b a : ℕ) (ts : List Tile) → FreeAt b a ts → a ≤ b
FreeAt-ge b a [] i = absurd i
FreeAt-ge b a (free n ∷ ts) (inl e) = omega (arith, e)
FreeAt-ge b a (free n ∷ ts) (inr i) = omega (arith, FreeAt-ge b (a + n) ts i)
FreeAt-ge b a (used n ∷ ts) i = omega (arith, FreeAt-ge b (a + n) ts i)

pub FreeAt-lt :
    (s : ℕ → ℕ) (b a : ℕ) (ts : List Tile) → Headed s a ts → FreeAt b a ts → b < a + widths ts
FreeAt-lt s b a [] h i = absurd i
FreeAt-lt s b a (free n ∷ ts) (j, w, h) (inl e) = omega (arith, e, w)
FreeAt-lt s b a (free n ∷ ts) (j, w, h) (inr i) = omega (arith, FreeAt-lt s b (a + n) ts h i)
FreeAt-lt s b a (used n ∷ ts) (j, w, h) i = omega (arith, FreeAt-lt s b (a + n) ts h i)

Ring-cons :
    (h : Heap) (last d p : ℕ) (qs : List ℕ)
    → h.ptr d ≡ p
    → p ≢ last
    → Ring h last p qs
    → Ring h last d (p ∷ qs)
Ring-cons h last d p [] e ne r = absurd r
Ring-cons h last d p (q ∷ qs) e ne r = (e, ne, r)

-- A ring through the free tiles of a row.
Ring-through :
    (h : Heap) (last d a z : ℕ) (ts : List Tile) (qs : List ℕ)
    → Linked h.ptr d a ts z
    → ((b : ℕ) → FreeAt b a ts → b ≢ last)
    → Ring h last (last_free d a ts) qs
    → Ring h last d (frees a ts ++ qs)
Ring-through h last d a z [] qs l ne r = r
Ring-through h last d a z (free n ∷ ts) qs (e, l) ne r =
    Ring-cons h last d a (frees (a + n) ts ++ qs) e (ne a (inl refl))
      (Ring-through h last a (a + n) z ts qs l (λ b i. ne b (inr i)) r)
Ring-through h last d a z (used n ∷ ts) qs l ne r = Ring-through h last d (a + n) z ts qs l ne r

end_link :
    (h : Heap) (d a : ℕ) (ts : List Tile) (z : ℕ)
    → Linked h.ptr d a ts z
    → h.ptr (last_free d a ts) ≡ z
end_link h d a [] z l = l
end_link h d a (free n ∷ ts) z l = end_link h a (a + n) ts z l.1
end_link h d a (used n ∷ ts) z l = end_link h d (a + n) ts z l

-- From the base round to the base.
pub Ring-base :
    (h : Heap) (n : ℕ) (ts : List Tile)
    → 0 < n
    → Linked h.ptr base (base + n) ts base
    → Ring h base base (frees (base + n) ts ++ base ∷ [])
Ring-base h n ts w l =
    Ring-through h base base (base + n) base ts (base ∷ []) l
      (λ b i e. let g = FreeAt-ge b (base + n) ts i in omega (arith, g, e, w))
      (end_link h base (base + n) ts base l, refl)

-- From a free tile over the base round to it.
pub Ring-behind :
    (h : Heap) (n m : ℕ) (ls rs : List Tile)
    → 0 < n
    → Headed h.size (base + n) (ls ++ free m ∷ rs)
    → Linked h.ptr base (base + n) (ls ++ free m ∷ rs) base
    → (let f = base + n + widths ls in
        Ring h f f (frees (f + m) rs ++ (base ∷ (frees (base + n) ls ++ f ∷ []))))
Ring-behind h n m ls rs w hd l =
    let f = base + n + widths ls in
    let ts = free m ∷ rs in
    let (j, l2) = Linked-right h.ptr ls ts base (base + n) base l in
    let (i, w2, hd2) = Headed-right h.size ls ts (base + n) hd in
    let far : base ≢ f = λ e. omega (arith, e, w) in
    Ring-through h f f (f + m) base rs (base ∷ (frees (base + n) ls ++ f ∷ [])) l2
      (λ b i' e. let g = FreeAt-ge b (f + m) rs i' in omega (arith, g, e, w2))
      (Ring-cons h f (last_free f (f + m) rs) base (frees (base + n) ls ++ f ∷ [])
        (end_link h f (f + m) rs base l2) far
        (Ring-through h f base (base + n) (h.ptr (last_free base (base + n) ls)) ls (f ∷ [])
          (Linked-left h.ptr ls ts base (base + n) base l)
          (λ b i' e.
            let g = FreeAt-lt h.size b (base + n) ls (Headed-left h.size ls ts (base + n) hd) i' in
            omega (arith, g, e))
          (j, refl)))

found :
    (h : Heap) (u prev d p q : ℕ) (ps : List ℕ)
    → h.ptr prev ≡ q
    → leb u (h.size q) ≡ true
    → (let A = ℕ × ℕ in let a : A = (prev, q) in let b : A = (d, p) in some a ≡ some b)
    → In p (q ∷ ps) × (u ≤ h.size p) × (h.ptr d ≡ p) × ((d ≡ prev) ⊎ In d (q ∷ ps))
found h u prev d p q ps l fits e =
    let i = some-injective _ _ e in
    let d_is : d ≡ prev = ap (λ x. x.0) (sym i) in
    let p_is : p ≡ q = ap (λ x. x.1) (sym i) in
    (inl p_is, (rw p_is (ground (arith, fits))), ap h.ptr d_is ∙ l ∙ sym p_is, inl d_is)

-- What `first_fit` finds in a ring.
pub first_fit-some :
    (h : Heap) (u last prev d p : ℕ) (ps : List ℕ)
    → Ring h last prev ps
    → first_fit h u prev ps ≡ some (d, p)
    → In p ps × (u ≤ h.size p) × (h.ptr d ≡ p) × ((d ≡ prev) ⊎ In d ps)
first_fit-some h u last prev d p [] r e = absurd r
first_fit-some h u last prev d p (q ∷ []) (l, z) e = elim (Bool-cases (leb u (h.size q))) [
  | inl fits ↦ found h u prev d p q [] l fits (rw fits at e)
  | inr small ↦ absurd (none-ne-some _ (rw small at e))
]
first_fit-some h u last prev d p (q ∷ q' ∷ ps) (l, ne, r) e = elim (Bool-cases (leb u (h.size q))) [
  | inl fits ↦ found h u prev d p q (q' ∷ ps) l fits (rw fits at e)
  | inr small ↦
      let (i, f, k, j) = first_fit-some h u last q d p (q' ∷ ps) r (rw small at e) in
      (inr i, f, k, inr j)
]

pub first_fit-none :
    (h : Heap) (u prev b : ℕ) (ps : List ℕ) → first_fit h u prev ps ≡ none → In b ps → h.size b < u
first_fit-none h u prev b [] e i = absurd i
first_fit-none h u prev b (p ∷ ps) e i = elim (Bool-cases (leb u (h.size p))) [
  | inl fits ↦ absurd (none-ne-some _ (sym (rw fits at e)))
  | inr small ↦ elim i [
    | inl j ↦ ground (arith, j, small)
    | inr i' ↦ first_fit-none h u p b ps (rw small at e) i'
  ]
]
