-- ===== src/Heap/Released.antt =====
-- `kfree` of src/mm/kmalloc.c as a function of the row of tiles.
use janus.Base.{
  ℕ, suc, ◌+◌, ◌-◌, ◌*◌, ◌≤◌, ◌<◌, ◌≡◌, refl, sym, subst, ◌∙◌, ap, some, List, [], ◌∷◌, ◌++◌, arith,
  ◌==◌, true, false, length, length-append, append_assoc,
}
use janus.Heap.{Heap, base, place, join_upper, join_lower, linked, kfree_from, kfree}
use janus.Heap.Tiles.{
  Tile, free, used, widths, Headed, Linked, last_free, Coalesced, widths-append, Headed-right,
  Linked-right, last_free-append, last_free-end, Headed-left,
}
use janus.Heap.Rows.{join, release, Tiled, Coalesced-replace, release-append}
use janus.Heap.Joining.{Upper, grown, behind_grown, join-grown, upper, lower_same}
use janus.Heap.Freeing.{
  lower_apart, grown_base, grown_behind, UsedAt, Split, at_first, after, split, grown-Coalesced,
  grown-widths, Parted-free, Parted-used,
}
use janus.Heap.Placing.{place-last_free}

kfree-place :
    (fuel : ℕ) (h : Heap) (bp f p : ℕ)
    → h.freep ≡ some f
    → place fuel h bp f ≡ some p
    → kfree fuel h (bp + 1) ≡ some (join_lower (join_upper h p bp) p bp)
unfolding kfree kfree_from linked
kfree-place fuel h bp f p e i = let back : bp + 1 - 1 ≡ bp = omega arith in simp (back, e, i) refl

-- What the search and the first join come to.
kfree-placed :
    (fuel : ℕ) (h : Heap) (n k b p : ℕ) (ls rs : List Tile)
    → Tiled h n (ls ++ used k ∷ rs)
    → b ≡ base + n + widths ls
    → p ≡ last_free base (base + n) ls
    → 2 * length (ls ++ used k ∷ rs) ≤ fuel
    → (kfree fuel h (b + 1) ≡ some (join_lower (join_upper h p b) p b))
      × Upper h (join_upper h p b) b (grown k rs) (behind_grown rs)
kfree-placed fuel h n k b p ls rs t e l fu =
    let ts = used k ∷ rs in
    let room = t.room in
    let (f, c, i) = t.current in
    let long : length ls + length rs + suc (length ls) < fuel =
      omega (arith, fu, length-append ls ts) in
    let there : place fuel h b f ≡ some p =
      subst (λ x. place fuel h x f ≡ some p) (sym e)
        (place-last_free ls rs n k fuel h f t.links t.heads room i long ∙ ap some (sym l)) in
    let hd : Headed h.size b ts =
      subst (λ x. Headed h.size x ts) (sym e) (Headed-right h.size ls ts (base + n) t.heads) in
    let li : Linked h.ptr p b ts base =
      subst (λ x. Linked h.ptr p x ts base) (sym e)
        (subst (λ x. Linked h.ptr x (base + n + widths ls) ts base) (sym l)
          (Linked-right h.ptr ls ts base (base + n) base t.links)) in
    (kfree-place fuel h b f p c there, upper rs h p b k hd li (omega (arith, e, room)))

-- What `kfree` of the block at `b` leaves of a row.
abbrev pub Released : (fuel : ℕ) (h : Heap) (n b : ℕ) → List Tile → Type 0
Released fuel h n b ts =
    (h' : Heap) × (n' : ℕ) × (ts' : List Tile) × (kfree fuel h (b + 1) ≡ some h')
    × (free n' ∷ ts' ≡ release base b (free n ∷ ts))
    × Tiled h' n' ts'

-- The block behind the base.
Released-first :
    (fuel : ℕ) (h : Heap) (n k b : ℕ) (rs : List Tile)
    → Tiled h n (used k ∷ rs)
    → b ≡ base + n
    → 2 * length (used k ∷ rs) ≤ fuel
    → Released fuel h n b (used k ∷ rs)
Released-first fuel h n k b rs t e fu =
    let room = t.room in
    let h1 = join_upper h base b in
    let (run, u) = kfree-placed fuel h n k b base [] rs t (omega (arith, e)) refl fu in
    let g = lower_same (behind_grown rs) h h1 base n b (grown k rs) u t.first room (sym e) in
    let n1 : (base == b) ≡ false = ground arith in
    let n2 : (base + n == b) ≡ true = ground arith in
    (
      join_lower h1 base b,
      n + grown k rs,
      behind_grown rs,
      run,
      rw (n1, n2, join-grown k rs) refl,
      grown_base rs (behind_grown rs) h h1 (join_lower h1 base b) n k (grown k rs) t g
          (grown-widths k rs) (grown-Coalesced (n + grown k rs) rs (t.parted).1.1),
    )

-- The row with the last tile before the block told apart.
told_apart :
    (h : Heap) (n : ℕ) (ls ts : List Tile) (t : Tile)
    → Tiled h n (ls ++ t ∷ ts)
    → Tiled h n ((ls ++ t ∷ []) ++ ts)
told_apart h n ls ts t = subst (λ x. Tiled h n x) (sym (append_assoc ls (t ∷ []) ts))

-- The block behind a free one.
Released-free :
    (fuel : ℕ) (h : Heap) (n m k b : ℕ) (ls rs : List Tile)
    → Tiled h n (ls ++ free m ∷ used k ∷ rs)
    → b ≡ base + n + widths ls + m
    → 2 * length (ls ++ free m ∷ used k ∷ rs) ≤ fuel
    → Released fuel h n b (ls ++ free m ∷ used k ∷ rs)
Released-free fuel h n m k b ls rs t e fu =
    let p = base + n + widths ls in
    let h1 = join_upper h p b in
    let g' = grown k rs in
    let ts = free m ∷ used k ∷ rs in
    let hd = Headed-right h.size ls ts (base + n) t.heads in
    let (run, u) =
      kfree-placed fuel h n k b p (ls ++ free m ∷ []) rs
        (told_apart h n ls (used k ∷ rs) (free m) t)
        (omega (arith, e, widths-append ls (free m ∷ [])))
        (sym (last_free-append ls (free m ∷ []) base (base + n)))
        (subst (λ x. 2 * length x ≤ fuel) (sym (append_assoc ls (free m ∷ []) (used k ∷ rs))) fu) in
    let g = lower_same (behind_grown rs) h h1 p m b g' u hd.0 hd.1 (sym e) in
    let pos = hd.1 in
    let co : Coalesced (free n ∷ ls ++ free (m + g') ∷ behind_grown rs) =
      Coalesced-replace (free n ∷ ls) ts (free (m + g') ∷ behind_grown rs)
        (Parted-free m (m + g') (used k ∷ rs) (behind_grown rs))
        (λ c. grown-Coalesced (m + g') rs c.1.1) t.parted in
    (
      join_lower h1 p b,
      n,
      ls ++ free (m + g') ∷ behind_grown rs,
      run,
      sym (
          release-append h.size (free n ∷ ls) rs (free m) k base b (t.first, t.room, t.heads)
            t.parted (omega (arith, e))
          ∙ ap (λ x. free n ∷ ls ++ join (free m) x) (join-grown k rs)),
      grown_behind ls rs (behind_grown rs) h h1 (join_lower h1 p b) n m k g' p t refl g
          (omega (arith, pos)) (grown-widths k rs) co,
    )

-- The block behind one in use.
Released-used :
    (fuel : ℕ) (h : Heap) (n m k b : ℕ) (ls rs : List Tile)
    → Tiled h n (ls ++ used m ∷ used k ∷ rs)
    → b ≡ base + n + widths ls + m
    → 2 * length (ls ++ used m ∷ used k ∷ rs) ≤ fuel
    → Released fuel h n b (ls ++ used m ∷ used k ∷ rs)
Released-used fuel h n m k b ls rs t e fu =
    let p = last_free base (base + n) ls in
    let h1 = join_upper h p b in
    let g' = grown k rs in
    let ts = used m ∷ used k ∷ rs in
    let ts' = free g' ∷ behind_grown rs in
    let before = ls ++ used m ∷ [] in
    let wide = widths-append ls (used m ∷ []) in
    let hd = Headed-right h.size ls ts (base + n) t.heads in
    let pos = hd.1 in
    let first = t.first in
    let t' = told_apart h n ls (used k ∷ rs) (used m) t in
    let lp = sym (last_free-append ls (used m ∷ []) base (base + n)) in
    let e' : b ≡ base + n + widths before = omega (arith, e, wide) in
    let (run, u) =
      kfree-placed fuel h n k b p before rs t' e' lp
        (subst (λ x. 2 * length x ≤ fuel) (sym (append_assoc ls (used m ∷ []) (used k ∷ rs))) fu) in
    let end =
      last_free-end h.size ls base (base + n) (omega (arith, first))
        (Headed-left h.size ls ts (base + n) t.heads) in
    let co : Coalesced (free n ∷ ls ++ used m ∷ ts') =
      Coalesced-replace (free n ∷ ls) ts (used m ∷ ts') (Parted-used m (used k ∷ rs) ts')
        (λ c. (tt, grown-Coalesced g' rs c.1.1)) t.parted in
    (
      join_lower h1 p b,
      n,
      before ++ ts',
      run,
      ap (λ x. free n ∷ x) (append_assoc ls (used m ∷ []) ts')
          ∙ sym (
              release-append h.size (free n ∷ ls) rs (used m) k base b (t.first, t.room, t.heads)
                t.parted (omega (arith, e))
              ∙ ap (λ x. free n ∷ ls ++ join (used m) x) (join-grown k rs)),
      lower_apart before rs (behind_grown rs) h h1 n k g' p b t' e' lp (omega (arith, end, e, pos))
          u (grown-widths k rs)
          (subst (λ x. Coalesced (free n ∷ x)) (sym (append_assoc ls (used m ∷ []) ts')) co),
    )

Released-split :
    (fuel : ℕ) (h : Heap) (n b : ℕ) (ts : List Tile)
    → Tiled h n ts
    → 2 * length ts ≤ fuel
    → Split b (base + n) ts
    → Released fuel h n b ts
Released-split fuel h n b ts t fu (at_first k rs e i) =
    subst (λ x. Released fuel h n b x) (sym e)
      (Released-first fuel h n k b rs (subst (λ x. Tiled h n x) e t) i
        (subst (λ x. 2 * length x ≤ fuel) e fu))
Released-split fuel h n b ts t fu (after ls (free m) k rs e i) =
    subst (λ x. Released fuel h n b x) (sym e)
      (Released-free fuel h n m k b ls rs (subst (λ x. Tiled h n x) e t) i
        (subst (λ x. 2 * length x ≤ fuel) e fu))
Released-split fuel h n b ts t fu (after ls (used m) k rs e i) =
    subst (λ x. Released fuel h n b x) (sym e)
      (Released-used fuel h n m k b ls rs (subst (λ x. Tiled h n x) e t) i
        (subst (λ x. 2 * length x ≤ fuel) e fu))

-- On a heap whose blocks fill the kernel's memory, the first of them free, with fuel for twice their
-- number, `kfree` of any block in use returns: the heap is then the row with that block free, one
-- with the free blocks next to it, and again no two free blocks are next to each other.
pub kfree-release :
    (fuel : ℕ) (h : Heap) (n b : ℕ) (ts : List Tile)
    → Tiled h n ts
    → 2 * length ts ≤ fuel
    → UsedAt b (base + n) ts
    → Released fuel h n b ts
kfree-release fuel h n b ts t fu i = Released-split fuel h n b ts t fu (split b (base + n) ts i)
