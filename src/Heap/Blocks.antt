-- ===== src/Heap/Blocks.antt =====
-- The heap as long as nothing is freed out of order: one free block, cut down from its end.
use janus.Base.{
  ℕ, suc, ◌+◌, ◌-◌, ◌<◌, ◌≡◌, refl, ◌∙◌, true, false, Option, none, some, List, [], ◌∷◌, ◌==◌, leb,
  ◌>>=◌, arith,
}
use janus.Heap.Fit.{kmalloc-first_fit}
use janus.Heap.{Heap, base, total, units, start, update, allocate, kmalloc}

-- One free block, at `base`, of so many units.
pub record OneBlock (h : Heap) (n : ℕ) : Type 0 where
  pub at_base : h.freep ≡ some base
  pub circular : h.ptr base ≡ base
  pub free : h.size base ≡ n

pub fresh-OneBlock : (h : Heap) → OneBlock (start h none).0 total
unfolding start
fresh-OneBlock h = record { at_base = refl; circular = refl; free = refl }

-- Allocation from the one block: its tail end, while it is larger than what is asked for.
pub kmalloc-OneBlock :
    (fuel : ℕ) (h : Heap) (n nbytes : ℕ)
    → OneBlock h n
    → units nbytes < n
    → (h' : Heap) × (kmalloc (suc fuel) h nbytes ≡ some (some (base + (n - units nbytes) + 1), h'))
      × OneBlock h' (n - units nbytes)
      × (h'.size (base + (n - units nbytes)) ≡ units nbytes)
unfolding allocate
kmalloc-OneBlock fuel h n nbytes o lt =
    let u = units nbytes in
    let rest = n - u in
    let h' : Heap = record h {
      size = update (update h.size base rest) (base + rest) u;
      freep = some base;
    } in
    let run =
      kmalloc-first_fit (suc fuel) h base nbytes (base ∷ []) o.at_base (o.circular, refl)
        (omega arith) in
    let fits : leb u n ≡ true = ground arith in
    let more : (n == u) ≡ false = ground arith in
    (
      h',
      run ∙ simp (o.free, fits, more) refl,
      record { at_base = refl; circular = o.circular; free = ground arith },
      ground arith,
    )

-- Requests one after another: where each block stands, from the top of the free block down.
abbrev pub placed : (n : ℕ) → List ℕ → List ℕ
placed n [] = []
placed n (b ∷ bs) = (base + (n - units b) + 1) ∷ placed (n - units b) bs

abbrev pub needed : List ℕ → ℕ
needed [] = 0
needed (b ∷ bs) = units b + needed bs

-- One request after another; `none` is also that one of them returned NULL.
next_request : (Heap → Option (List ℕ × Heap)) → Option (Option ℕ × Heap) → Option (List ℕ × Heap)
next_request k none = none
next_request k (some (none, h)) = none
next_request k (some (some a, h)) = k h >>= (λ r. some (a ∷ r.0, r.1))

pub kmallocs : (fuel : ℕ) → Heap → List ℕ → Option (List ℕ × Heap)
unfolding next_request
kmallocs fuel h [] = some ([], h)
kmallocs fuel h (b ∷ bs) = next_request (λ h'. kmallocs fuel h' bs) (kmalloc fuel h b)

OneBlock-eq : {h : Heap} {n m : ℕ} → OneBlock h n → n ≡ m → OneBlock h m
OneBlock-eq o e = record { at_base = o.at_base; circular = o.circular; free = o.free ∙ e }

kmallocs-OneBlock :
    (bs : List ℕ) (fuel : ℕ) (h : Heap) (n : ℕ)
    → OneBlock h n
    → needed bs < n
    → (h' : Heap) × (kmallocs (suc fuel) h bs ≡ some (placed n bs, h'))
      × OneBlock h' (n - needed bs)
unfolding kmallocs
kmallocs-OneBlock [] fuel h n o lt = (h, refl, OneBlock-eq o (omega arith))
kmallocs-OneBlock (b ∷ bs) fuel h n o lt =
    let (h1, run, o1, s1) = kmalloc-OneBlock fuel h n b o (omega (arith, lt)) in
    let (h2, runs, o2) = kmallocs-OneBlock bs fuel h1 (n - units b) o1 (omega (arith, lt)) in
    (h2, rw (run, runs) refl, OneBlock-eq o2 (omega arith))

-- Blocks that stand below one another from `top` down, each with its header and all above `base`.
abbrev pub Stacked : (top : ℕ) → (blocks bs : List ℕ) → Type 0
Stacked top [] [] = Unit
Stacked top [] (b ∷ bs) = ⊥
Stacked top (a ∷ as_) [] = ⊥
Stacked top (a ∷ as_) (b ∷ bs) = (a - 1 + units b ≡ top) × (base + 1 < a) × Stacked (a - 1) as_ bs

placed-Stacked :
    (bs : List ℕ) (n top : ℕ) → needed bs < n → top ≡ base + n → Stacked top (placed n bs) bs
placed-Stacked [] n top lt e = tt
placed-Stacked (b ∷ bs) n top lt e = (
  omega (arith, lt, e),
  omega (arith, lt),
  placed-Stacked bs (n - units b) (base + (n - units b) + 1 - 1) (omega (arith, lt)) (omega arith),
)

kmalloc-fresh :
    (fuel : ℕ) (h : Heap) (nbytes : ℕ)
    → h.freep ≡ none
    → kmalloc fuel h nbytes ≡ kmalloc fuel (start h none).0 nbytes
unfolding kmalloc start
kmalloc-fresh fuel h nbytes f = simp f refl

-- On a heap not used yet any requests that need less than all of its units are met: the blocks
-- returned stand below one another from the end of the kernel's memory down, so that no two of them
-- overlap, and none reaches the header at its start; what they leave is one free block.
kmallocs-Stacked :
    (fuel : ℕ) (h : Heap) (b : ℕ) (bs : List ℕ)
    → h.freep ≡ none
    → needed (b ∷ bs) < total
    → (blocks : List ℕ) × (h' : Heap) × (kmallocs (suc fuel) h (b ∷ bs) ≡ some (blocks, h'))
      × Stacked (base + total) blocks (b ∷ bs)
      × OneBlock h' (total - needed (b ∷ bs))
unfolding kmallocs
kmallocs-Stacked fuel h b bs f lt =
    let h0 = (start h none).0 in
    let (h', run, o) = kmallocs-OneBlock (b ∷ bs) fuel h0 total (fresh-OneBlock h) lt in
    (
      placed total (b ∷ bs),
      h',
      simp (kmalloc-fresh (suc fuel) h b f) run,
      placed-Stacked (b ∷ bs) total (base + total) lt refl,
      o,
    )

kmalloc-all :
    (fuel : ℕ) (h : Heap) (n nbytes : ℕ)
    → OneBlock h n
    → units nbytes ≡ n
    → (h' : Heap) × (kmalloc (suc fuel) h nbytes ≡ some (some (base + 1), h')) × OneBlock h' n
unfolding allocate
kmalloc-all fuel h n nbytes o e =
    let h' : Heap = record h { ptr = update h.ptr base (h.ptr base); freep = some base } in
    let run =
      kmalloc-first_fit (suc fuel) h base nbytes (base ∷ []) o.at_base (o.circular, refl)
        (omega arith) in
    let fits : leb n n ≡ true = ground arith in
    let all : (n == n) ≡ true = ground arith in
    (
      h',
      run ∙ simp (o.free, e, fits, all) refl,
      record { at_base = refl; circular = ground (arith, o.circular); free = o.free },
    )

-- A request for all units of the only free block returns it and leaves it on the free list: the
-- same request again returns the same block.
pub kmallocs_twice :
    (fuel : ℕ) (h : Heap) (n nbytes : ℕ)
    → OneBlock h n
    → units nbytes ≡ n
    → (h' : Heap) × (kmallocs (suc fuel) h (nbytes ∷ nbytes ∷ [])
        ≡ some ((base + 1) ∷ (base + 1) ∷ [], h'))
unfolding kmallocs
kmallocs_twice fuel h n nbytes o e =
    let (h1, run1, o1) = kmalloc-all fuel h n nbytes o e in
    let (h2, run2, o2) = kmalloc-all fuel h1 n nbytes o1 e in (h2, rw (run1, run2) refl)
