-- ===== src/Heap/Tests.antt =====
-- kmalloc.c on a heap that nothing was allocated from, and on one with two free blocks.
use janus.Base.{
  Option, ℕ, inl, inr, ◌<◌, ◌≢◌, ◌≤◌, ◌+◌, ◌-◌, ◌≡◌, refl, none, some, List, [], ◌∷◌, ◌==◌,
  if◌then◌else◌, arith,
}
use janus.Heap.{kfree, join_lower, join_upper, Heap, start, base, total, units, kmalloc}
use janus.Heap.Fit.{first_fit, outcome, kmalloc-first_fit}
use janus.Heap.Tiles.{Tile, free, used}
use janus.Heap.Rows.{Tiled}
use janus.Heap.Requests.{Served, kmalloc-Served}
use janus.Heap.Released.{Released, kfree-release}
use janus.Heap.Live.{met, freed, Reach, here, next}
use janus.Heap.Reached.{Reach-apart, Reach-returns, Reach-whole}
use janus.Heap.Blocks.{fresh-OneBlock, kmalloc-OneBlock, OneBlock, kmallocs, kmallocs_twice}

abbrev unused : Heap
unused = record { ptr = λ p. 0; size = λ p. 0; freep = none }

abbrev small : Heap
small = record { ptr = λ p. base; size = λ p. 4; freep = some base }

small-OneBlock : OneBlock small 4
small-OneBlock = record { at_base = refl; circular = refl; free = refl }

-- A block of 2 units at 10, where the search ends, and one of 6 at 20.
abbrev two_blocks : Heap
two_blocks = record {
  ptr = λ p. if p == 10 then 20 else 10;
  size = λ p. if p == 10 then 2 else 6;
  freep = some 10;
}

kmalloc-first_fit_example :
    kmalloc 2 two_blocks 24
    ≡ some (outcome two_blocks (units 24) (first_fit two_blocks (units 24) 10 (20 ∷ 10 ∷ [])))
kmalloc-first_fit_example =
    kmalloc-first_fit 2 two_blocks 10 24 (20 ∷ 10 ∷ []) refl
      (refl, (λ e. omega (arith, e)), (refl, refl)) (omega arith)

kmallocs_twice_example :
    (h' : Heap) × (kmallocs 1 small (24 ∷ 24 ∷ []) ≡ some ((base + 1) ∷ (base + 1) ∷ [], h'))
unfolding units
kmallocs_twice_example = kmallocs_twice 0 small 4 24 small-OneBlock refl

-- Between two blocks in use one of 3 units, and one of 5 behind them.
abbrev row : List Tile
row = used 2 ∷ free 3 ∷ used 4 ∷ free (total - 13) ∷ []

abbrev tiled : Heap
tiled = record {
  ptr = λ p. if p == base then base + 6 else if p == base + 6 then base + 13 else base;
  size = λ p.
      if p == base
      then 4
      else if p == base + 4
      then 2
      else if p == base + 6
      then 3
      else if p == base + 9
      then 4
      else total - 13;
  freep = some (base + 6);
}

tiled-Tiled : Tiled tiled 4 row
tiled-Tiled = record {
  first = refl;
  room = omega arith;
  heads = (refl, omega arith, (refl, omega arith, (refl, omega arith, (refl, omega arith, tt))));
  links = (refl, (refl, refl));
  current = (base + 6, refl, inr (inl refl));
  parted = (tt, (tt, (tt, (tt, (tt, tt)))));
  whole = refl;
}

-- Two units, from the block behind the current one.
kmalloc-Served_example : Served (units 8) tiled 4 row (kmalloc 5 tiled 8)
unfolding units
kmalloc-Served_example =
    kmalloc-Served 5 tiled 8 4 row tiled-Tiled (omega arith) (λ e. omega (arith, e))

-- The block between the two free ones, which becomes one with both.
kfree-release_example : Released 8 tiled 4 (base + 9) row
kfree-release_example =
    kfree-release 8 tiled 4 (base + 9) row tiled-Tiled (omega arith) (inr (inl refl))

-- Two requests of 8 bytes, on a heap that nothing was allocated from.
abbrev all_of_it : ℕ
all_of_it = 0x380000

abbrev low : ℕ
low = base + (total - 4)

abbrev high : ℕ
high = base + (total - 2)

first_request :
    (h1 : Heap) × (kmalloc all_of_it (start unused none).0 8 ≡ some (some (high + 1), h1))
    × OneBlock h1 (total - 2)
unfolding units
first_request =
    let (h1, run, o, s) =
      kmalloc-OneBlock 0x37ffff (start unused none).0 total 8 (fresh-OneBlock unused)
        (omega arith) in
    (h1, run, o)

second_request :
    (h2 : Heap) × (kmalloc all_of_it first_request.0 8 ≡ some (some (low + 1), h2))
    × OneBlock h2 (total - 4)
unfolding units
second_request =
    let (h1, run, o) = first_request in
    let (h2, run2, o2, s) = kmalloc-OneBlock 0x37ffff h1 (total - 2) 8 o (omega arith) in
    (h2, run2, o2)

one_given : Reach all_of_it (start unused none).0 [] first_request.0 (high ∷ [])
unfolding units start
one_given = next here (met 8 (high + 1) (λ e. omega (arith, e)) first_request.1 refl)

two_given : Reach all_of_it (start unused none).0 [] second_request.0 (low ∷ high ∷ [])
unfolding units
two_given =
    let o = first_request.2 in
    let left = o.free in
    next one_given (met 8 (low + 1) (λ e. omega (arith, e, left)) second_request.1 refl)

Reach-apart_example :
    (base < low)
    × (low + second_request.0.size low ≤ high)
    × (high + second_request.0.size high ≤ base + total)
Reach-apart_example =
    Reach-apart all_of_it unused second_request.0 (low ∷ high ∷ []) low high (omega arith) two_given
      (inl refl) (inr (inl refl)) (omega arith)

first_left : first_request.0.size base ≢ units 8
unfolding units
first_left = λ e. let o = first_request.2 in let left = o.free in omega (arith, e, left)

given_and_freed : (h2 : Heap) × Reach all_of_it (start unused none).0 [] h2 []
given_and_freed =
    let (h2, got) =
      (Reach-returns all_of_it unused first_request.0 (high ∷ []) 8 high (omega arith) one_given
        first_left (inl refl)).1 in
    (h2, next one_given (freed high (inl refl) got refl))

Reach-whole_example : OneBlock given_and_freed.0 total
Reach-whole_example = Reach-whole all_of_it unused given_and_freed.0 (omega arith) given_and_freed.1

-- One free block of 3 units at `base + 9`, and below it a block of 2 units at `base + 7`.
abbrev sole_free : Heap
sole_free = record {
  ptr = λ p. base + 9;
  size = λ p. if p == base + 7 then 2 else 3;
  freep = some (base + 9);
}

abbrev links_of : Option Heap → Option (ℕ × ℕ × ℕ)
links_of none = none
links_of (some h) = some (h.ptr (base + 7), h.ptr (base + 9), h.size (base + 7))

-- Freed, the lower block has 5 units, up to the end of the other, which is still on the list.
sole_free_run : links_of (kfree 2 sole_free (base + 8)) ≡ some (base + 9, base + 7, 5)
unfolding kfree join_lower join_upper
sole_free_run = refl
