-- ===== src/Heap/Fit.antt =====
-- `kmalloc` over a circular free list of any length: it takes the first block that is big enough.
use janus.Base.{
  ℕ, zero, suc, ◌≤◌, ◌≡◌, ◌≢◌, refl, true, false, Option, none, some, List, [], ◌∷◌, ◌==◌,
  if◌then◌else◌, leb, length, arith, Bool-cases, inl, inr,
}
use janus.Heap.{Heap, units, start, allocate, scan, kmalloc}

-- From `prev` on the links lead through these blocks and come to `last` with the last of them.
abbrev pub Ring : Heap → (last prev : ℕ) → List ℕ → Type 0
Ring h last prev [] = ⊥
Ring h last prev (p ∷ []) = (h.ptr prev ≡ p) × (p ≡ last)
Ring h last prev (p ∷ q ∷ ps) = (h.ptr prev ≡ p) × (p ≢ last) × Ring h last p (q ∷ ps)

-- The first of the blocks that has the units, and the block before it.
abbrev pub first_fit : Heap → (nunits prev : ℕ) → List ℕ → Option (ℕ × ℕ)
first_fit h n prev [] = none
first_fit h n prev (p ∷ ps) = if leb n (h.size p) then some (prev, p) else first_fit h n p ps

-- What `kmalloc` comes to: no block, or the one found with what is done to it.
abbrev pub outcome : Heap → (nunits : ℕ) → Option (ℕ × ℕ) → Option ℕ × Heap
outcome h n none = (none, h)
outcome h n (some (prev, p)) = let (a, h') = allocate h prev p n in (some a, h')

scan-first_fit :
    (ps : List ℕ) (fuel : ℕ) (h : Heap) (last prev n : ℕ)
    → Ring h last prev ps
    → length ps ≤ fuel
    → scan fuel h last prev (h.ptr prev) n ≡ some (outcome h n (first_fit h n prev ps))
unfolding scan
scan-first_fit [] fuel h last prev n r l = elim r [ ]
scan-first_fit (p ∷ ps) zero h last prev n r l = absurd (omega (arith, l))
scan-first_fit (p ∷ []) (suc fuel) h last prev n (e, z) l = elim (Bool-cases (leb n (h.size p))) [
  | inl fits ↦ rw (e, fits) refl
  | inr small ↦ let stop : (p == last) ≡ true = ground arith in rw (e, small, stop) refl
]
scan-first_fit (p ∷ q ∷ ps) (suc fuel) h last prev n (e, ne, r) l =
    elim (Bool-cases (leb n (h.size p))) [
      | inl fits ↦ rw (e, fits) refl
      | inr small ↦
          let go : (p == last) ≡ false = ground arith in
          rw (e, small, go) (scan-first_fit (q ∷ ps) fuel h last p n r (omega (arith, l)))
    ]

-- On a circular free list, with fuel for its blocks, `kmalloc` returns: it allocates from the first
-- block behind `freep` that has the units asked for, and returns NULL, with the heap as it was, just
-- where none has.
pub kmalloc-first_fit :
    (fuel : ℕ) (h : Heap) (last nbytes : ℕ) (ps : List ℕ)
    → h.freep ≡ some last
    → Ring h last last ps
    → length ps ≤ fuel
    → kmalloc fuel h nbytes ≡ some (outcome h (units nbytes) (first_fit h (units nbytes) last ps))
unfolding kmalloc start
kmalloc-first_fit fuel h last nbytes ps f r l =
    simp f (scan-first_fit ps fuel h last last (units nbytes) r l)
