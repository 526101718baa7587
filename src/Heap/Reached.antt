-- ===== src/Heap/Reached.antt =====
-- What holds of the heap of src/mm/kmalloc.c after any sequence of calls.
use janus.Base.{
  ℕ, ◌+◌, ◌*◌, ◌≤◌, ◌<◌, ◌≡◌, ◌≢◌, refl, subst, ◌∙◌, ap, inl, inr, Option, none, some, List, [],
  ◌∷◌, arith,
}
use janus.Heap.{Heap, base, total, start, units, kmalloc, kfree}
use janus.Heap.Tiles.{Tile, free, used, widths, Headed, Coalesced}
use janus.Heap.Rows.{Tiled}
use janus.Heap.Rings.{In}
use janus.Heap.Freeing.{UsedAt}
use janus.Heap.Blocks.{OneBlock}
use janus.Heap.Live.{Reach, here, next, UsedAt-ge}
use janus.Heap.Held.{Holds, Step-Holds, served, gone}

-- The state after the first call has made the kernel's memory one free block.
start-Holds : (h : Heap) → Holds (start h none).0 []
unfolding start
start-Holds h = (
  total,
  [],
  record {
    tiled = record {
      first = refl;
      room = omega arith;
      heads = tt;
      links = refl;
      current = (base, refl, inl refl);
      parted = (tt, tt);
      whole = refl;
    };
    in_row = λ b i. i;
    in_live = λ b i. i;
  },
)

Reach-Holds :
    (fuel : ℕ) (h : Heap) {h' : Heap} {live : List ℕ}
    → 2 * total ≤ fuel
    → Reach fuel (start h none).0 [] h' live
    → Holds h' live
Reach-Holds fuel h fu here = start-Holds h
Reach-Holds fuel h fu (next {h1} {h2} {live1} {live2} r s) =
    Step-Holds fuel h1 h2 live1 live2 fu s (Reach-Holds fuel h fu r)

-- Two blocks of a row that are in use.
UsedAt-apart :
    (s : ℕ → ℕ) (b c a : ℕ) (ts : List Tile)
    → Headed s a ts
    → UsedAt b a ts
    → UsedAt c a ts
    → b < c
    → b + s b ≤ c
UsedAt-apart s b c a [] h i j lt = absurd i
UsedAt-apart s b c a (free n ∷ ts) (e, w, h) i j lt = UsedAt-apart s b c (a + n) ts h i j lt
UsedAt-apart s b c a (used n ∷ ts) (e, w, h) (inl i) (inl j) lt = absurd (omega (arith, i, j, lt))
UsedAt-apart s b c a (used n ∷ ts) (e, w, h) (inl i) (inr j) lt =
    let g = UsedAt-ge c (a + n) ts j in let z : s b ≡ n = ap s i ∙ e in omega (arith, g, z, i)
UsedAt-apart s b c a (used n ∷ ts) (e, w, h) (inr i) (inl j) lt =
    absurd (let g = UsedAt-ge b (a + n) ts i in omega (arith, g, j, lt))
UsedAt-apart s b c a (used n ∷ ts) (e, w, h) (inr i) (inr j) lt =
    UsedAt-apart s b c (a + n) ts h i j lt

UsedAt-inside :
    (s : ℕ → ℕ) (b a : ℕ) (ts : List Tile) → Headed s a ts → UsedAt b a ts → b + s b ≤ a + widths ts
UsedAt-inside s b a [] h i = absurd i
UsedAt-inside s b a (free n ∷ ts) (e, w, h) i = omega (arith, UsedAt-inside s b (a + n) ts h i)
UsedAt-inside s b a (used n ∷ ts) (e, w, h) (inl i) =
    let z : s b ≡ n = ap s i ∙ e in omega (arith, z, i)
UsedAt-inside s b a (used n ∷ ts) (e, w, h) (inr i) =
    omega (arith, UsedAt-inside s b (a + n) ts h i)

-- After any sequence of calls on a heap not used yet, each with fuel for the kernel's memory, of
-- which none asks for exactly the units of the first block: of two blocks in use the lower one ends
-- before the other begins, and each of them is within the kernel's memory, behind its start.
pub Reach-apart :
    (fuel : ℕ) (h h' : Heap) (live : List ℕ) (b c : ℕ)
    → 2 * total ≤ fuel
    → Reach fuel (start h none).0 [] h' live
    → In b live
    → In c live
    → b < c
    → (base < b) × (b + h'.size b ≤ c) × (c + h'.size c ≤ base + total)
Reach-apart fuel h h' live b c fu r i j lt =
    let (n, ts, d) = Reach-Holds fuel h fu r in
    let t = d.tiled in
    let a = base + n in
    let room = t.room in
    let whole = t.whole in
    let low = UsedAt-ge b a ts (d.in_row b i) in
    let high = UsedAt-inside h'.size c a ts t.heads (d.in_row c j) in
    (
      omega (arith, low, room),
      UsedAt-apart h'.size b c a ts t.heads (d.in_row b i) (d.in_row c j) lt,
      omega (arith, high, whole),
    )

-- After any such sequence of calls the next one returns: a request, again not of exactly the units
-- of the first block, and the release of a block in use.
pub Reach-returns :
    (fuel : ℕ) (h h' : Heap) (live : List ℕ) (nbytes b : ℕ)
    → 2 * total ≤ fuel
    → Reach fuel (start h none).0 [] h' live
    → h'.size base ≢ units nbytes
    → In b live
    → ((r : Option ℕ × Heap) × (kmalloc fuel h' nbytes ≡ some r))
      × ((h2 : Heap) × (kfree fuel h' (b + 1) ≡ some h2))
Reach-returns fuel h h' live nbytes b fu r ne i =
    let (n, ts, d) = Reach-Holds fuel h fu r in
    let (h2, n', ts', got, k, t) = gone fuel h' live n b ts fu d i in
    (
      elim (served fuel h' live nbytes n ts fu d ne) [
        | inl (nothing, s) ↦ ((none, h'), nothing)
        | inr (c, h3, n3, ts3, got3, t3, i3) ↦ ((some (c + 1), h3), got3)
      ],
      (h2, got),
    )

-- A row with no tile in use is one free block.
all_free :
    (n a : ℕ) (ts : List Tile) → Coalesced (free n ∷ ts) → ((b : ℕ) → ¬ UsedAt b a ts) → ts ≡ []
all_free n a [] c u = refl
all_free n a (free m ∷ ts) c u = absurd c.0
all_free n a (used m ∷ ts) c u = absurd (u a (inl refl))

-- Once any sequence of calls on a heap not used yet, in any order, each with fuel for the kernel's
-- memory and none for exactly the units of the first block, has freed all the blocks it was given,
-- the kernel's memory is one free block again.
pub Reach-whole :
    (fuel : ℕ) (h h' : Heap)
    → 2 * total ≤ fuel
    → Reach fuel (start h none).0 [] h' []
    → OneBlock h' total
Reach-whole fuel h h' fu r =
    let (n, ts, d) = Reach-Holds fuel h fu r in
    let t = d.tiled in
    let e : ts ≡ [] = all_free n (base + n) ts t.parted (λ b i. d.in_live b i) in
    let t' = subst (λ x. Tiled h' n x) e t in
    let whole = t'.whole in
    let (f, at_f, i) = t'.current in
    record {
      at_base = at_f ∙ ap some (elim i [ inl z ↦ z | inr z ↦ absurd z ]);
      circular = t'.links;
      free = t'.first ∙ omega (arith, whole);
    }
