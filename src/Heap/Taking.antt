-- ===== src/Heap/Taking.antt =====
-- `allocate`, the end of `kmalloc` of src/mm/kmalloc.c, as a change of the row of tiles.
use janus.Base.{
  ℕ, ◌+◌, ◌-◌, ◌<◌, ◌≡◌, refl, sym, subst, ◌∙◌, ap, ◌⊎◌, inl, inr, some, List, [], ◌∷◌, ◌++◌, arith,
  ◌==◌, true, false,
}
use janus.Heap.{Heap, base, update, allocate}
use janus.Heap.Tiles.{
  Tile, free, used, widths, Headed, Linked, last_free, FreeAt, Parted, widths-append, Headed-left,
  Headed-right, Headed-append, Headed-agree, Linked-agree, Linked-relink, Linked-left, Linked-right,
  Linked-append, last_free-below,
}
use janus.Heap.Rows.{Tiled, Coalesced-replace, FreeAt-left, FreeAt-last}
use janus.Heap.Joining.{update_self, update-ne}
use janus.Heap.Freeing.{Parted-free}

-- `d` is a free block of the heap.
abbrev pub IsFree : (d n : ℕ) → List Tile → Type 0
IsFree d n ts = (d ≡ base) ⊎ FreeAt d (base + n) ts

-- The heap after the tail end of the block at `p` was taken.
abbrev pub cut : Heap → (d p r u : ℕ) → Heap
cut h d p r u = record h { size = update (update h.size p r) (p + r) u; freep = some d }

pub allocate-cut :
    (h : Heap) (d p r u : ℕ)
    → h.size p ≡ r + u
    → 0 < r
    → allocate h d p u ≡ (p + r + 1, cut h d p r u)
unfolding allocate
allocate-cut h d p r u e w =
    let other : (h.size p == u) ≡ false = ground arith in
    let rest : h.size p - u ≡ r = omega (arith, e) in rw (other, rest) refl

pub allocate-all :
    (h : Heap) (d p u : ℕ)
    → h.size p ≡ u
    → allocate h d p u ≡ (p + 1, record h { ptr = update h.ptr d (h.ptr p); freep = some d })
unfolding allocate
allocate-all h d p u e = let same : (h.size p == u) ≡ true = ground arith in rw same refl

-- The headers of the two parts, and of the row behind them.
cut-Headed :
    (h : Heap) (d p r u : ℕ) (ts : List Tile)
    → 0 < r
    → 0 < u
    → Headed h.size (p + (r + u)) ts
    → Headed (cut h d p r u).size p (free r ∷ used u ∷ ts)
cut-Headed h d p r u ts w v hd =
    let s1 = update h.size p r in
    (
      update-ne s1 (p + r) u p (inl (omega (arith, w))) ∙ update_self h.size p r,
      w,
      (
        update_self s1 (p + r) u,
        v,
        Headed-agree h.size (cut h d p r u).size ts (p + r + u)
            (λ x lo hi.
              update-ne s1 (p + r) u x (inr (omega (arith, lo, v)))
              ∙ update-ne h.size p r x (inr (omega (arith, lo, w))))
            (subst (λ x. Headed h.size x ts) (omega arith) hd),
      ),
    )

cut-before : (h : Heap) (d p r u x : ℕ) → x < p → (cut h d p r u).size x ≡ h.size x
cut-before h d p r u x lt =
    update-ne (update h.size p r) (p + r) u x (inl (omega (arith, lt)))
    ∙ update-ne h.size p r x (inl lt)

-- The tail end of the block at the base.
pub cut_base :
    (h : Heap) (d r u : ℕ) (ts : List Tile)
    → Tiled h (r + u) ts
    → 0 < r
    → 0 < u
    → IsFree d (r + u) ts
    → Tiled (cut h d base r u) r (used u ∷ ts)
cut_base h d r u ts t w v i =
    let hd = cut-Headed h d base r u ts w v t.heads in
    record {
      first = hd.0;
      room = w;
      heads = hd.2;
      links = subst (λ x. Linked h.ptr base x ts base) (omega arith) t.links;
      current = (d, refl, subst (λ x. (d ≡ base) ⊎ FreeAt d x ts) (omega arith) i);
      parted = (tt, (tt, (t.parted).1));
      whole = omega (arith, t.whole);
    }

FreeAt-cut :
    (b a r u : ℕ) (ls ts : List Tile)
    → FreeAt b a (ls ++ free (r + u) ∷ ts)
    → FreeAt b a (ls ++ free r ∷ used u ∷ ts)
FreeAt-cut b a r u [] ts (inl e) = inl e
FreeAt-cut b a r u [] ts (inr i) = inr (subst (λ x. FreeAt b x ts) (omega arith) i)
FreeAt-cut b a r u (free n ∷ ls) ts (inl e) = inl e
FreeAt-cut b a r u (free n ∷ ls) ts (inr i) = inr (FreeAt-cut b (a + n) r u ls ts i)
FreeAt-cut b a r u (used n ∷ ls) ts i = FreeAt-cut b (a + n) r u ls ts i

IsFree-cut :
    (d n r u : ℕ) (ls ts : List Tile)
    → IsFree d n (ls ++ free (r + u) ∷ ts)
    → IsFree d n (ls ++ free r ∷ used u ∷ ts)
IsFree-cut d n r u ls ts (inl e) = inl e
IsFree-cut d n r u ls ts (inr i) = inr (FreeAt-cut d (base + n) r u ls ts i)

-- The tail end of another block.
pub cut_behind :
    (h : Heap) (n d r u p : ℕ) (ls ts : List Tile)
    → Tiled h n (ls ++ free (r + u) ∷ ts)
    → p ≡ base + n + widths ls
    → 0 < r
    → 0 < u
    → IsFree d n (ls ++ free (r + u) ∷ ts)
    → Tiled (cut h d p r u) n (ls ++ free r ∷ used u ∷ ts)
cut_behind h n d r u p ls ts t e w v i =
    let old = free (r + u) ∷ ts in
    let new = free r ∷ used u ∷ ts in
    let room = t.room in
    let hd = Headed-right h.size ls old (base + n) t.heads in
    let li = Linked-right h.ptr ls old base (base + n) base t.links in
    let parts =
      cut-Headed h d p r u ts w v (subst (λ x. Headed h.size (x + (r + u)) ts) (sym e) hd.2) in
    record {
      first = cut-before h d p r u base (omega (arith, e, room)) ∙ t.first;
      room = room;
      heads =
          Headed-append (cut h d p r u).size ls new (base + n)
            (Headed-agree h.size (cut h d p r u).size ls (base + n)
              (λ x lo hi. cut-before h d p r u x (omega (arith, hi, e)))
              (Headed-left h.size ls old (base + n) t.heads))
            (subst (λ x. Headed (cut h d p r u).size x new) e parts);
      links =
          Linked-append h.ptr ls new base (base + n) (h.ptr (last_free base (base + n) ls)) base
            (Linked-left h.ptr ls old base (base + n) base t.links)
            (li.0, subst (λ x. Linked h.ptr (base + n + widths ls) x ts base) (omega arith) li.1);
      current = (d, refl, IsFree-cut d n r u ls ts i);
      parted =
          Coalesced-replace (free n ∷ ls) old new (Parted-free (r + u) r ts (used u ∷ ts))
            (λ c. (tt, (tt, c.1))) t.parted;
      whole = omega (arith, t.whole, widths-append ls old, widths-append ls new);
    }

Parted-to_used :
    (x y : ℕ) (ts : List Tile) (t : Tile) → Parted t (free x ∷ ts) → Parted t (used y ∷ ts)
Parted-to_used x y ts (free n) p = tt
Parted-to_used x y ts (used n) p = tt

-- All of another block.
pub taken_all :
    (h : Heap) (n u p d : ℕ) (ls ts : List Tile)
    → Tiled h n (ls ++ free u ∷ ts)
    → p ≡ base + n + widths ls
    → d ≡ last_free base (base + n) ls
    → Tiled (record h { ptr = update h.ptr d (h.ptr p); freep = some d }) n (ls ++ used u ∷ ts)
taken_all h n u p d ls ts t e l =
    let old = free u ∷ ts in
    let new = used u ∷ ts in
    let room = t.room in
    let f = update h.ptr d (h.ptr p) in
    let hd = Headed-right h.size ls old (base + n) t.heads in
    let hl = Headed-left h.size ls old (base + n) t.heads in
    let li = Linked-right h.ptr ls old base (base + n) base t.links in
    let dp : d < base + n + widths ls =
      subst (λ x. x < base + n + widths ls) (sym l)
        (last_free-below h.size ls base (base + n) (omega (arith, room)) hl) in
    let on : Linked f d (base + n + widths ls + u) ts base =
      Linked-agree h.ptr f ts (base + n + widths ls) d (base + n + widths ls + u) base
        (update_self h.ptr d (h.ptr p) ∙ ap h.ptr e)
        (λ x lo. update-ne h.ptr d (h.ptr p) x (inr (omega (arith, lo, dp)))) li.1 in
    let up : Linked f base (base + n) ls (h.ptr p) =
      Linked-relink h.size h.ptr f ls base (base + n) (h.ptr (last_free base (base + n) ls))
        (h.ptr p) (omega (arith, room)) hl
        (λ x xl. update-ne h.ptr d (h.ptr p) x (inl (subst (λ y. x < y) (sym l) xl)))
        (ap f (sym l) ∙ update_self h.ptr d (h.ptr p))
        (Linked-left h.ptr ls old base (base + n) base t.links) in
    record {
      first = t.first;
      room = room;
      heads = Headed-append h.size ls new (base + n) hl hd;
      links =
          Linked-append f ls new base (base + n) (h.ptr p) base up
            (subst (λ y. Linked f y (base + n + widths ls) new base) l on);
      current = (
        d,
        refl,
        subst (λ y. IsFree y n (ls ++ new)) (sym l)
            (elim (FreeAt-last base (base + n) ls) [
              | inl i ↦ inl i
              | inr i ↦ inr (FreeAt-left (last_free base (base + n) ls) (base + n) ls new i)
            ]),
      );
      parted =
          Coalesced-replace (free n ∷ ls) old new (Parted-to_used u u ts) (λ c. (tt, c.1)) t.parted;
      whole = omega (arith, t.whole, widths-append ls old, widths-append ls new);
    }
