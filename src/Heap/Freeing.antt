-- ===== src/Heap/Freeing.antt =====
-- `kfree` of src/mm/kmalloc.c on a heap whose blocks fill the kernel's memory: the row that it leaves.
use janus.Base.{
  ℕ, ◌+◌, ◌≤◌, ◌<◌, ◌≡◌, refl, sym, subst, ◌∙◌, ap, ◌⊎◌, inl, inr, List, [], ◌∷◌, ◌++◌, arith,
}
use janus.Heap.{Heap, base, update, join_lower}
use janus.Heap.Tiles.{
  Tile, free, used, width, widths, Headed, Linked, last_free, FreeAt, Parted, Coalesced,
  widths-append, Headed-left, Headed-append, Headed-agree, Linked-agree, Linked-relink, Linked-left,
  Linked-right, Linked-append, last_free-ge, last_free-below,
}
use janus.Heap.Rows.{Tiled, FreeAt-left, FreeAt-right, FreeAt-last}
use janus.Heap.Joining.{Upper, Grown, grown, behind_grown, update_self, update-ne, join_lower-other}

-- The last free block before `bp` does not reach it: the block at `bp` is linked behind it.
pub lower_apart :
    (ls rs rs' : List Tile) (h h1 : Heap) (n k k' p bp : ℕ)
    → Tiled h n (ls ++ used k ∷ rs)
    → bp ≡ base + n + widths ls
    → p ≡ last_free base (base + n) ls
    → p + h.size p < bp
    → Upper h h1 bp k' rs'
    → k' + widths rs' ≡ k + widths rs
    → Coalesced (free n ∷ ls ++ free k' ∷ rs')
    → Tiled (join_lower h1 p bp) n (ls ++ free k' ∷ rs')
lower_apart ls rs rs' h h1 n k k' p bp t b l ap_ u w c =
    let lt : p < bp = omega (arith, ap_) in
    let e : h1.size p ≡ h.size p = u.size_before p lt in
    let pb : base ≤ p =
      subst (λ x. base ≤ x) (sym l) (last_free-ge ls base (base + n) (omega arith)) in
    let bb : base < bp = omega (arith, pb, lt) in
    let f = update h1.ptr p bp in
    let old = Headed-left h.size ls (used k ∷ rs) (base + n) t.heads in
    let before : (x : ℕ) → x < p → f x ≡ h.ptr x =
      λ x xl. update-ne h1.ptr p bp x (inl xl) ∙ u.ptr_before x (omega (arith, xl, lt)) in
    let up : Linked f base (base + n) ls bp =
      Linked-relink h.size h.ptr f ls base (base + n) (h.ptr (last_free base (base + n) ls)) bp
        (let r = t.room in omega arith) old (λ x xl. before x (subst (λ y. x < y) (sym l) xl))
        (ap f (sym l) ∙ update_self h1.ptr p bp)
        (Linked-left h.ptr ls (used k ∷ rs) base (base + n) base t.links) in
    let on : Linked f bp (bp + k') rs' base =
      Linked-agree h1.ptr f rs' bp bp (bp + k') base (update-ne h1.ptr p bp bp (inr lt))
        (λ x lo. update-ne h1.ptr p bp x (inr (omega (arith, lo, lt)))) u.links in
    subst (λ y. Tiled y n (ls ++ free k' ∷ rs')) (sym (join_lower-other h1 p bp (ground arith)))
      (record {
        first = u.size_before base bb ∙ t.first;
        room = t.room;
        heads =
            Headed-append h1.size ls (free k' ∷ rs') (base + n)
              (Headed-agree h.size h1.size ls (base + n)
                (λ x lo hi. u.size_before x (omega (arith, hi, b))) old)
              (subst (λ y. Headed h1.size y (free k' ∷ rs')) b (u.size, u.room, u.heads));
        links = Linked-append f ls (free k' ∷ rs') base (base + n) bp base up (
            subst (λ y. Linked f y (base + n + widths ls) (free k' ∷ rs') base) l
              (subst (λ y. Linked f p y (free k' ∷ rs') base) b (update_self h1.ptr p bp, on)));
        current = (
          p,
          refl,
          subst (λ y. (y ≡ base) ⊎ FreeAt y (base + n) (ls ++ free k' ∷ rs')) (sym l)
              (elim (FreeAt-last base (base + n) ls) [
                | inl i ↦ inl i
                | inr i ↦
                    inr (FreeAt-left (last_free base (base + n) ls) (base + n) ls (free k' ∷ rs') i)
              ]),
        );
        parted = c;
        whole =
            omega
              (arith, t.whole, widths-append ls (free k' ∷ rs'), widths-append ls (used k ∷ rs), w);
      })

pub grown_base :
    (rs rs' : List Tile) (h h1 h2 : Heap) (n k k' : ℕ)
    → Tiled h n (used k ∷ rs)
    → Grown h h1 h2 base (n + k') rs'
    → k' + widths rs' ≡ k + widths rs
    → Coalesced (free (n + k') ∷ rs')
    → Tiled h2 (n + k') rs'
grown_base rs rs' h h1 h2 n k k' t g w c = record {
  first = g.size;
  room = (let r = t.room in omega arith);
  heads = g.heads;
  links = g.links;
  current = (base, g.current, inl refl);
  parted = c;
  whole = omega (arith, t.whole, w);
}

pub grown_behind :
    (ls rs rs' : List Tile) (h h1 h2 : Heap) (n m k k' p : ℕ)
    → Tiled h n (ls ++ free m ∷ used k ∷ rs)
    → p ≡ base + n + widths ls
    → Grown h h1 h2 p (m + k') rs'
    → 0 < m + k'
    → k' + widths rs' ≡ k + widths rs
    → Coalesced (free n ∷ ls ++ free (m + k') ∷ rs')
    → Tiled h2 n (ls ++ free (m + k') ∷ rs')
grown_behind ls rs rs' h h1 h2 n m k k' p t b g r w c =
    let ts = free m ∷ used k ∷ rs in
    let ts' = free (m + k') ∷ rs' in
    let d = last_free base (base + n) ls in
    let room = t.room in
    let old = Headed-left h.size ls ts (base + n) t.heads in
    let dp : d < p =
      subst (λ x. d < x) (sym b) (last_free-below h.size ls base (base + n) (omega arith) old) in
    let here : h.ptr d ≡ base + n + widths ls =
      (Linked-right h.ptr ls ts base (base + n) base t.links).0 in
    let up : Linked h2.ptr base (base + n) ls p =
      Linked-relink h.size h.ptr h2.ptr ls base (base + n) (h.ptr d) p (omega arith) old
        (λ x xl. g.ptr_before x (omega (arith, xl, dp))) (g.ptr_before d dp ∙ here ∙ sym b)
        (Linked-left h.ptr ls ts base (base + n) base t.links) in
    record {
      first = g.size_before base (omega (arith, b, room)) ∙ t.first;
      room = room;
      heads =
          Headed-append h2.size ls ts' (base + n)
            (Headed-agree h.size h2.size ls (base + n)
              (λ x lo hi. g.size_before x (omega (arith, hi, b))) old)
            (subst (λ y. Headed h2.size y ts') b (g.size, r, g.heads));
      links =
          Linked-append h2.ptr ls ts' base (base + n) p base up
            (subst (λ y. Linked h2.ptr d y ts' base) b (g.ptr_before d dp ∙ here ∙ sym b, g.links));
      current = (
        p,
        g.current,
        inr (FreeAt-right p (base + n) ls ts' (subst (λ y. FreeAt p y ts') b (inl refl))),
      );
      parted = c;
      whole = omega (arith, t.whole, widths-append ls ts, widths-append ls ts', w);
    }

-- `b` is a tile of the row that is in use.
abbrev pub UsedAt : (b a : ℕ) → List Tile → Type 0
UsedAt b a [] = ⊥
UsedAt b a (free n ∷ ts) = UsedAt b (a + n) ts
UsedAt b a (used n ∷ ts) = (b ≡ a) ⊎ UsedAt b (a + n) ts

-- The tile at `b` is the first, or follows another.
pub data Split (b a : ℕ) (ts : List Tile) : Type 0 where
  at_first : (k : ℕ) (rs : List Tile) → ts ≡ used k ∷ rs → b ≡ a → Split b a ts
  after :
      (ls : List Tile) (t : Tile) (k : ℕ) (rs : List Tile)
      → ts ≡ ls ++ t ∷ used k ∷ rs
      → b ≡ a + widths ls + width t
      → Split b a ts

split_behind : (b a : ℕ) (t : Tile) (ts : List Tile) → Split b (a + width t) ts → Split b a (t ∷ ts)
split_behind b a t ts (at_first k rs e i) = after [] t k rs (ap (λ x. t ∷ x) e) (omega (arith, i))
split_behind b a t ts (after ls t' k rs e i) =
    after (t ∷ ls) t' k rs (ap (λ x. t ∷ x) e) (omega (arith, i))

pub split : (b a : ℕ) (ts : List Tile) → UsedAt b a ts → Split b a ts
split b a [] i = absurd i
split b a (free n ∷ ts) i = split_behind b a (free n) ts (split b (a + n) ts i)
split b a (used n ∷ ts) (inl e) = at_first n ts refl e
split b a (used n ∷ ts) (inr i) = split_behind b a (used n) ts (split b (a + n) ts i)

pub grown-Coalesced : (x : ℕ) (ts : List Tile) → Coalesced ts → Coalesced (free x ∷ behind_grown ts)
grown-Coalesced x [] c = (tt, tt)
grown-Coalesced x (free m ∷ []) c = (tt, tt)
grown-Coalesced x (free m ∷ free j ∷ ts) c = absurd c.0
grown-Coalesced x (free m ∷ used j ∷ ts) c = c
grown-Coalesced x (used m ∷ ts) c = (tt, c)

pub grown-widths : (k : ℕ) (ts : List Tile) → grown k ts + widths (behind_grown ts) ≡ k + widths ts
grown-widths k [] = omega arith
grown-widths k (free m ∷ ts) = omega arith
grown-widths k (used m ∷ ts) = omega arith

pub Parted-free :
    (x y : ℕ) (ts ts' : List Tile) (t : Tile) → Parted t (free x ∷ ts) → Parted t (free y ∷ ts')
Parted-free x y ts ts' (free n) p = p
Parted-free x y ts ts' (used n) p = tt

pub Parted-used :
    (x : ℕ) (ts ts' : List Tile) (t : Tile) → Parted t (used x ∷ ts) → Parted t (used x ∷ ts')
Parted-used x ts ts' (free n) p = tt
Parted-used x ts ts' (used n) p = tt
