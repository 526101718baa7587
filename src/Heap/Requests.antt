-- ===== src/Heap/Requests.antt =====
-- `kmalloc` of src/mm/kmalloc.c as a change of the row of tiles.
use janus.Base.{
  ℕ, suc, ◌+◌, ◌-◌, ◌≤◌, ◌<◌, ◌≡◌, ◌≢◌, refl, sym, subst, ◌∙◌, ap, ◌⊎◌, inl, inr, Option, none,
  some, List, ◌∷◌, ◌++◌, arith, ◌==◌, length, Option-cases, Bool-cases,
}
use janus.Heap.{Heap, base, update, units, kmalloc}
use janus.Heap.Fit.{first_fit, outcome, kmalloc-first_fit}
use janus.Heap.Tiles.{Tile, free, used, widths, Headed-right}
use janus.Heap.Rows.{Tiled, Taken, all, tail_end}
use janus.Heap.Rings.{In, first_fit-some, first_fit-none}
use janus.Heap.Taking.{IsFree, cut, allocate-cut, allocate-all, cut_base, cut_behind, taken_all}
use janus.Heap.Before.{Linked-before, Taken-append}
use janus.Heap.Rounds.{Round, round, SplitFree, between, FreeAt-SplitFree}

-- What a request for `u` units comes to: no block, where no free one has the units, and the heap as
-- it was; or a block taken from the row.
abbrev pub Served : (u : ℕ) (h : Heap) (n : ℕ) (ts : List Tile) → Option (Option ℕ × Heap) → Type 0
Served u h n ts r =
    ((r ≡ some (none, h)) × ((b : ℕ) → IsFree b n ts → h.size b < u))
    ⊎ ((b : ℕ) × (h' : Heap) × (n' : ℕ) × (ts' : List Tile) × (r ≡ some (some (b + 1), h'))
        × Taken u b base (free n ∷ ts) (free n' ∷ ts')
        × Tiled h' n' ts')

Served-base :
    (u : ℕ) (h : Heap) (n d r : ℕ) (ts : List Tile)
    → Tiled h n ts
    → 0 < u
    → 0 < r
    → n ≡ r + u
    → IsFree d n ts
    → Served u h n ts (some (outcome h u (some (d, base))))
Served-base u h n d r ts t v w e i =
    let t' = subst (λ x. Tiled h x ts) e t in
    inr (
      base + r,
      cut h d base r u,
      r,
      used u ∷ ts,
      ap (λ x. some (some x.0, x.1)) (allocate-cut h d base r u t'.first w),
      subst (λ x. Taken u (base + r) base (free x ∷ ts) (free r ∷ used u ∷ ts)) (sym e)
          (tail_end base r ts refl w),
      cut_base h d r u ts t' w v (subst (λ x. IsFree d x ts) e i),
    )

Served-cut :
    (u : ℕ) (h : Heap) (n d r m p : ℕ) (ls rs : List Tile)
    → Tiled h n (ls ++ free m ∷ rs)
    → p ≡ base + n + widths ls
    → 0 < u
    → 0 < r
    → m ≡ r + u
    → IsFree d n (ls ++ free m ∷ rs)
    → Served u h n (ls ++ free m ∷ rs) (some (outcome h u (some (d, p))))
Served-cut u h n d r m p ls rs t e v w s i =
    let t' = subst (λ x. Tiled h n (ls ++ free x ∷ rs)) s t in
    let hd = Headed-right h.size ls (free (r + u) ∷ rs) (base + n) t'.heads in
    inr (
      p + r,
      cut h d p r u,
      n,
      ls ++ free r ∷ used u ∷ rs,
      ap (λ x. some (some x.0, x.1)) (allocate-cut h d p r u (ap h.size e ∙ hd.0) w),
      subst
          (λ x.
            Taken u (p + r) base (free n ∷ ls ++ free x ∷ rs) (free n ∷ ls ++ free r ∷ used u ∷ rs))
          (sym s)
          (Taken-append u (p + r) base (free n ∷ ls) (free (r + u) ∷ rs) (free r ∷ used u ∷ rs)
            (tail_end (base + (n + widths ls)) r rs (omega (arith, e)) w)),
      cut_behind h n d r u p ls rs t' e w v (subst (λ x. IsFree d n (ls ++ free x ∷ rs)) s i),
    )

Served-all :
    (u : ℕ) (h : Heap) (n d p : ℕ) (ls rs : List Tile)
    → Tiled h n (ls ++ free u ∷ rs)
    → p ≡ base + n + widths ls
    → IsFree d n (ls ++ free u ∷ rs)
    → h.ptr d ≡ p
    → Served u h n (ls ++ free u ∷ rs) (some (outcome h u (some (d, p))))
Served-all u h n d p ls rs t e i j =
    let hd = Headed-right h.size ls (free u ∷ rs) (base + n) t.heads in
    let room = t.room in
    inr (
      p,
      record h { ptr = update h.ptr d (h.ptr p); freep = some d },
      n,
      ls ++ used u ∷ rs,
      ap (λ x. some (some x.0, x.1)) (allocate-all h d p u (ap h.size e ∙ hd.0)),
      Taken-append u p base (free n ∷ ls) (free u ∷ rs) (used u ∷ rs)
          (subst (λ x. Taken u p x (free u ∷ rs) (used u ∷ rs)) (omega (arith, e)) (all rs)),
      taken_all h n u p d ls rs t e (
          Linked-before h.ptr h.size ls rs u base d (base + n) t.links t.heads (omega (arith, room))
            i (j ∙ e)),
    )

Served-behind :
    (u : ℕ) (h : Heap) (n d p : ℕ) (ts : List Tile)
    → Tiled h n ts
    → 0 < u
    → SplitFree p (base + n) ts
    → IsFree d n ts
    → h.ptr d ≡ p
    → u ≤ h.size p
    → Served u h n ts (some (outcome h u (some (d, p))))
Served-behind u h n d p ts t v (between ls m rs e i) f j le =
    let t' = subst (λ x. Tiled h n x) e t in
    let f' = subst (λ x. IsFree d n x) e f in
    let hd = Headed-right h.size ls (free m ∷ rs) (base + n) t'.heads in
    let sz : h.size p ≡ m = ap h.size i ∙ hd.0 in
    subst (λ x. Served u h n x (some (outcome h u (some (d, p))))) (sym e)
      (elim (Bool-cases (m == u)) [
        | inl same ↦
            let mu : m ≡ u = ground arith in
            subst (λ x. Served u h n (ls ++ free x ∷ rs) (some (outcome h u (some (d, p)))))
              (sym mu)
              (Served-all u h n d p ls rs (subst (λ x. Tiled h n (ls ++ free x ∷ rs)) mu t') i
                (subst (λ x. IsFree d n (ls ++ free x ∷ rs)) mu f') j)
        | inr other ↦
            let ne : m ≢ u = ground arith in
            Served-cut u h n d (m - u) m p ls rs t' i v (omega (arith, le, sz, ne))
              (omega (arith, le, sz)) f'
      ])

Served-found :
    (u : ℕ) (h : Heap) (n f d p : ℕ) (ts : List Tile) (ps : List ℕ)
    → Tiled h n ts
    → 0 < u
    → n ≢ u
    → IsFree f n ts
    → Round h n f ts ps
    → In p ps × (u ≤ h.size p) × (h.ptr d ≡ p) × ((d ≡ f) ⊎ In d ps)
    → Served u h n ts (some (outcome h u (some (d, p))))
Served-found u h n f d p ts ps t v ne i r (in_p, le, j, in_d) =
    let free_d : IsFree d n ts = elim in_d [
      | inl e ↦ subst (λ x. IsFree x n ts) (sym e) i
      | inr k ↦ r.in_free d k
    ] in
    elim (r.in_free p in_p) [
      | inl e ↦
          let first = t.first in
          let le' : u ≤ n = subst (λ x. u ≤ x) (ap h.size e ∙ first) le in
          subst (λ x. Served u h n ts (some (outcome h u (some (d, x))))) (sym e)
            (Served-base u h n d (n - u) ts t v (omega (arith, le', ne)) (omega (arith, le'))
              free_d)
      | inr k ↦ Served-behind u h n d p ts t v (FreeAt-SplitFree p (base + n) ts k) free_d j le
    ]

units-positive : (nbytes : ℕ) → 0 < units nbytes
unfolding units
units-positive nbytes = omega arith

-- On a heap whose blocks fill the kernel's memory, the first of them free and not of exactly the
-- units asked for, with fuel for its blocks, `kmalloc` returns: NULL where no free block has the
-- units, with the heap as it was, or else a block taken from the row, all of a free one or its tail
-- end, and the heap's blocks fill the memory as before.
pub kmalloc-Served :
    (fuel : ℕ) (h : Heap) (nbytes n : ℕ) (ts : List Tile)
    → Tiled h n ts
    → suc (length ts) ≤ fuel
    → n ≢ units nbytes
    → Served (units nbytes) h n ts (kmalloc fuel h nbytes)
kmalloc-Served fuel h nbytes n ts t fu ne =
    let u = units nbytes in
    let (f, c, i) = t.current in
    let (ps, r) = round h n f ts t i in
    let sh = r.short in
    let run = kmalloc-first_fit fuel h f nbytes ps c r.ring (omega (arith, fu, sh)) in
    subst (λ x. Served u h n ts x) (sym run)
      (elim (Option-cases (first_fit h u f ps)) [
        | inl nothing ↦ inl (
          ap (λ x. some (outcome h u x)) nothing,
          λ b j. first_fit-none h u f b ps nothing (r.free_in b j),
        )
        | inr (q, fits) ↦
            subst (λ x. Served u h n ts (some (outcome h u x))) (sym fits)
              (Served-found u h n f q.0 q.1 ts ps t (units-positive nbytes) ne i r
                (first_fit-some h u f f q.0 q.1 ps r.ring fits))
      ])
