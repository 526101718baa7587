-- ===== src/Heap/Joining.antt =====
-- The two joins of `kfree` in src/mm/kmalloc.c, on a heap whose headers describe a row of tiles.
use janus.Base.{
  ℕ, ◌+◌, ◌<◌, ◌≡◌, refl, sym, subst, ◌∙◌, ◌⊎◌, inl, inr, some, List, [], ◌∷◌, arith, ◌==◌, true,
  false,
}
use janus.Heap.{Heap, base, update, join_upper, join_lower}
use janus.Heap.Tiles.{Tile, free, used, Headed, Linked, Headed-agree, Linked-agree}
use janus.Heap.Rows.{join}
use janus.Heap.Placing.{Linked-next}

-- After the first join: the block at `bp` has `n` units and is followed by the row `ts`; the heap
-- is as it was before `bp`.
pub record Upper (h h1 : Heap) (bp n : ℕ) (ts : List Tile) : Type 0 where
  pub size : h1.size bp ≡ n
  pub room : 0 < n
  pub heads : Headed h1.size (bp + n) ts
  pub links : Linked h1.ptr bp (bp + n) ts base
  pub ptr_before : (x : ℕ) → x < bp → h1.ptr x ≡ h.ptr x
  pub size_before : (x : ℕ) → x < bp → h1.size x ≡ h.size x

-- The row that the first join makes of a block of `n` units and the row behind it.
abbrev pub grown : ℕ → List Tile → ℕ
grown n (free m ∷ ts) = n + m
grown n (used m ∷ ts) = n
grown n [] = n

abbrev pub behind_grown : List Tile → List Tile
behind_grown (free m ∷ ts) = ts
behind_grown (used m ∷ ts) = used m ∷ ts
behind_grown [] = []

pub join-grown : (n : ℕ) (ts : List Tile) → join (free n) ts ≡ free (grown n ts) ∷ behind_grown ts
join-grown n (free m ∷ ts) = refl
join-grown n (used m ∷ ts) = refl
join-grown n [] = refl

join_upper-other :
    (h : Heap) (p bp : ℕ)
    → (bp + h.size bp == h.ptr p) ≡ false
    → join_upper h p bp ≡ record h { ptr = update h.ptr bp (h.ptr p) }
unfolding join_upper
join_upper-other h p bp e = rw e refl

join_upper-same :
    (h : Heap) (p bp q : ℕ)
    → h.ptr p ≡ q
    → (bp + h.size bp == q) ≡ true
    → join_upper h p bp
      ≡ record h { size = update h.size bp (h.size bp + h.size q); ptr = update h.ptr bp (h.ptr q) }
unfolding join_upper
join_upper-same h p bp q i e = rw (i, e) refl

pub update_self : (f : ℕ → ℕ) (p v : ℕ) → update f p v p ≡ v
update_self f p v = let same : (p == p) ≡ true = ground arith in rw same refl

pub update-ne : (f : ℕ → ℕ) (p v x : ℕ) → (x < p) ⊎ (p < x) → update f p v x ≡ f x
update-ne f p v x (inl l) = let other : (x == p) ≡ false = ground arith in rw other refl
update-ne f p v x (inr l) = let other : (x == p) ≡ false = ground arith in rw other refl

-- No free block behind `bp`: its link alone is set.
upper_apart :
    (rs : List Tile) (h : Heap) (p bp n : ℕ)
    → Headed h.size bp (used n ∷ rs)
    → Linked h.ptr p (bp + n) rs base
    → (bp + h.size bp == h.ptr p) ≡ false
    → Upper h (join_upper h p bp) bp n rs
upper_apart rs h p bp n (i, w, hd) l other =
    subst (λ y. Upper h y bp n rs) (sym (join_upper-other h p bp other))
      (record {
        size = i;
        room = w;
        heads = hd;
        links =
            Linked-agree h.ptr (update h.ptr bp (h.ptr p)) rs p bp (bp + n) base
              (update_self h.ptr bp (h.ptr p))
              (λ x lo. update-ne h.ptr bp (h.ptr p) x (inr (omega (arith, lo, w)))) l;
        ptr_before = λ x lt. update-ne h.ptr bp (h.ptr p) x (inl lt);
        size_before = λ x lt. refl;
      })

pub upper :
    (rs : List Tile) (h : Heap) (p bp n : ℕ)
    → Headed h.size bp (used n ∷ rs)
    → Linked h.ptr p (bp + n) rs base
    → base < bp
    → Upper h (join_upper h p bp) bp (grown n rs) (behind_grown rs)
upper [] h p bp n hd l lt = upper_apart [] h p bp n hd l (let i = hd.0 in ground (arith, l, i))
upper (used m ∷ rs) h p bp n hd l lt = upper_apart (used m ∷ rs) h p bp n hd l (
    let i = hd.0 in
    let w = hd.2.1 in
    elim (Linked-next h.ptr rs p (bp + n + m) base l) [
      | inl e ↦ ground (arith, e, i)
      | inr g ↦ ground (arith, g, i)
    ])
upper (free m ∷ rs) h p bp n (i, w, r) (q, l) lt =
    let s = update h.size bp (h.size bp + h.size (bp + n)) in
    let f = update h.ptr bp (h.ptr (bp + n)) in
    let same : (bp + h.size bp == bp + n) ≡ true = ground arith in
    subst (λ y. Upper h y bp (n + m) rs) (sym (join_upper-same h p bp (bp + n) q same))
      (record {
        size = update_self h.size bp (h.size bp + h.size (bp + n)) ∙ omega (arith, i, r.0);
        room = omega (arith, w);
        heads =
            subst (λ x. Headed s x rs) (omega arith)
              (Headed-agree h.size s rs (bp + n + m)
                (λ x lo hi.
                  update-ne h.size bp (h.size bp + h.size (bp + n)) x (inr (omega (arith, lo, w))))
                r.2);
        links =
            subst (λ x. Linked f bp x rs base) (omega arith)
              (Linked-agree h.ptr f rs (bp + n) bp (bp + n + m) base
                (update_self h.ptr bp (h.ptr (bp + n)))
                (λ x lo. update-ne h.ptr bp (h.ptr (bp + n)) x (inr (omega (arith, lo, w)))) l);
        ptr_before = λ x lt'. update-ne h.ptr bp (h.ptr (bp + n)) x (inl lt');
        size_before = λ x lt'. update-ne h.size bp (h.size bp + h.size (bp + n)) x (inl lt');
      })

pub join_lower-other :
    (h : Heap) (p bp : ℕ)
    → (p + h.size p == bp) ≡ false
    → join_lower h p bp ≡ record h { ptr = update h.ptr p bp; freep = some p }
unfolding join_lower
join_lower-other h p bp e = rw e refl

join_lower-same :
    (h : Heap) (p bp : ℕ)
    → (p + h.size p == bp) ≡ true
    → join_lower h p bp ≡ record h {
      size = update h.size p (h.size p + h.size bp);
      ptr = update h.ptr p (h.ptr bp);
      freep = some p;
    }
unfolding join_lower
join_lower-same h p bp e = rw e refl

-- The last free block before `bp`, of `m` units, reaches it: it takes in the block at `bp`.
pub record Grown (h h1 h2 : Heap) (p m : ℕ) (ts : List Tile) : Type 0 where
  pub size : h2.size p ≡ m
  pub heads : Headed h2.size (p + m) ts
  pub links : Linked h2.ptr p (p + m) ts base
  pub current : h2.freep ≡ some p
  pub ptr_before : (x : ℕ) → x < p → h2.ptr x ≡ h.ptr x
  pub size_before : (x : ℕ) → x < p → h2.size x ≡ h.size x

pub lower_same :
    (ts : List Tile) (h h1 : Heap) (p m bp k : ℕ)
    → Upper h h1 bp k ts
    → h.size p ≡ m
    → 0 < m
    → p + m ≡ bp
    → Grown h h1 (join_lower h1 p bp) p (m + k) ts
lower_same ts h h1 p m bp k u e w b =
    let lt : p < bp = omega (arith, b, w) in
    let i : h1.size p ≡ m = u.size_before p lt ∙ e in
    let v = h1.size p + h1.size bp in
    subst (λ y. Grown h h1 y p (m + k) ts) (sym (join_lower-same h1 p bp (ground arith)))
      (record {
        size = update_self h1.size p v ∙ omega (arith, i, u.size);
        heads =
            subst (λ x. Headed (update h1.size p v) x ts) (omega (arith, b))
              (Headed-agree h1.size (update h1.size p v) ts (bp + k)
                (λ x lo hi. update-ne h1.size p v x (inr (omega (arith, lo, lt)))) u.heads);
        links =
            subst (λ x. Linked (update h1.ptr p (h1.ptr bp)) p x ts base) (omega (arith, b))
              (Linked-agree h1.ptr (update h1.ptr p (h1.ptr bp)) ts bp p (bp + k) base
                (update_self h1.ptr p (h1.ptr bp))
                (λ x lo. update-ne h1.ptr p (h1.ptr bp) x (inr (omega (arith, lo, lt)))) u.links);
        current = refl;
        ptr_before = λ x xl.
            update-ne h1.ptr p (h1.ptr bp) x (inl xl) ∙ u.ptr_before x (omega (arith, xl, lt));
        size_before =
            λ x xl. update-ne h1.size p v x (inl xl) ∙ u.size_before x (omega (arith, xl, lt));
      })
