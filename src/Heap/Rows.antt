-- ===== src/Heap/Rows.antt =====
-- What `kmalloc` and `kfree` of src/mm/kmalloc.c do to a row of tiles, and what they keep of it.
use janus.Base.{
  ℕ, ◌+◌, ◌<◌, ◌≡◌, some, refl, subst, ◌⊎◌, inl, inr, List, [], ◌∷◌, ◌++◌, arith, ◌==◌,
  if◌then◌else◌, true, false,
}
use janus.Heap.{Heap, base, total}
use janus.Heap.Tiles.{
  Tile, free, used, width, widths, Headed, last_free, FreeAt, Parted, Coalesced, Linked,
}

-- The heap is a row of blocks from `base` on, which fills the kernel's memory: first a free one of
-- `n` units, then the tiles. The links lead through the free ones in order and back to `base`,
-- `freep` is one of them, and no two of them are next to each other.
pub record Tiled (h : Heap) (n : ℕ) (ts : List Tile) : Type 0 where
  pub first : h.size base ≡ n
  pub room : 0 < n
  pub heads : Headed h.size (base + n) ts
  pub links : Linked h.ptr base (base + n) ts base
  pub current : (f : ℕ) × (h.freep ≡ some f) × ((f ≡ base) ⊎ FreeAt f (base + n) ts)
  pub parted : Coalesced (free n ∷ ts)
  pub whole : n + widths ts ≡ total

-- A free tile takes in a free one behind it.
abbrev pub join : Tile → List Tile → List Tile
join (free n) (free m ∷ ts) = free (n + m) ∷ ts
join (free n) (used m ∷ ts) = free n ∷ used m ∷ ts
join (free n) [] = free n ∷ []
join (used n) ts = used n ∷ ts

-- The tile at `b` is freed, and is one with the free tiles next to it.
abbrev pub release : (a b : ℕ) → List Tile → List Tile
release a b [] = []
release a b (t ∷ ts) =
    let rest = release (a + width t) b ts in
    if a == b then join (free (width t)) ts else join t rest

-- Tiles are taken for `u` units: all of a free tile, or its tail end with the block at `b`.
pub data Taken (u b : ℕ) : (a : ℕ) → List Tile → List Tile → Type 0 where
  all : (ts : List Tile) → Taken u b b (free u ∷ ts) (used u ∷ ts)
  tail_end :
      (a m : ℕ) (ts : List Tile)
      → b ≡ a + m
      → 0 < m
      → Taken u b a (free (m + u) ∷ ts) (free m ∷ used u ∷ ts)
  behind :
      (a : ℕ) (t : Tile) (ts ts' : List Tile)
      → Taken u b (a + width t) ts ts'
      → Taken u b a (t ∷ ts) (t ∷ ts')

pub Coalesced-replace :
    (ls ts ts' : List Tile)
    → ((t : Tile) → Parted t ts → Parted t ts')
    → (Coalesced ts → Coalesced ts')
    → Coalesced (ls ++ ts)
    → Coalesced (ls ++ ts')
Coalesced-replace [] ts ts' p k c = k c
Coalesced-replace (t ∷ []) ts ts' p k (q, c) = (p t q, k c)
Coalesced-replace (free n ∷ free m ∷ ls) ts ts' p k (q, c) = absurd q
Coalesced-replace (free n ∷ used m ∷ ls) ts ts' p k (q, c) =
    (q, Coalesced-replace (used m ∷ ls) ts ts' p k c)
Coalesced-replace (used n ∷ r ∷ ls) ts ts' p k (q, c) =
    (tt, Coalesced-replace (r ∷ ls) ts ts' p k c)

pub Coalesced-right : (ls ts : List Tile) → Coalesced (ls ++ ts) → Coalesced ts
Coalesced-right [] ts c = c
Coalesced-right (t ∷ ls) ts (q, c) = Coalesced-right ls ts c

pub FreeAt-left : (b a : ℕ) (ls ts : List Tile) → FreeAt b a ls → FreeAt b a (ls ++ ts)
FreeAt-left b a [] ts i = absurd i
FreeAt-left b a (free n ∷ ls) ts (inl e) = inl e
FreeAt-left b a (free n ∷ ls) ts (inr i) = inr (FreeAt-left b (a + n) ls ts i)
FreeAt-left b a (used n ∷ ls) ts i = FreeAt-left b (a + n) ls ts i

pub FreeAt-right :
    (b a : ℕ) (ls ts : List Tile) → FreeAt b (a + widths ls) ts → FreeAt b a (ls ++ ts)
FreeAt-right b a [] ts i = subst (λ x. FreeAt b x ts) (omega arith) i
FreeAt-right b a (free n ∷ ls) ts i =
    inr (FreeAt-right b (a + n) ls ts (subst (λ x. FreeAt b x ts) (omega arith) i))
FreeAt-right b a (used n ∷ ls) ts i =
    FreeAt-right b (a + n) ls ts (subst (λ x. FreeAt b x ts) (omega arith) i)

pub FreeAt-last :
    (d a : ℕ) (ls : List Tile) → (last_free d a ls ≡ d) ⊎ FreeAt (last_free d a ls) a ls
FreeAt-last d a [] = inl refl
FreeAt-last d a (free n ∷ ls) = inr (FreeAt-last a (a + n) ls)
FreeAt-last d a (used n ∷ ls) = FreeAt-last d (a + n) ls

join-Parted :
    (t : Tile) (ls : List Tile) (t' : Tile) (ts rs : List Tile)
    → Parted t (ls ++ t' ∷ rs)
    → join t (ls ++ join t' ts) ≡ t ∷ ls ++ join t' ts
join-Parted (used n) ls t' ts rs q = refl
join-Parted (free n) (free m ∷ ls) t' ts rs q = absurd q
join-Parted (free n) (used m ∷ ls) t' ts rs q = refl
join-Parted (free n) [] (free m) ts rs q = absurd q
join-Parted (free n) [] (used m) ts rs q = refl

-- The release of a tile that follows others.
pub release-append :
    (s : ℕ → ℕ) (ls rs : List Tile) (t : Tile) (n a b : ℕ)
    → Headed s a (ls ++ t ∷ used n ∷ rs)
    → Coalesced (ls ++ t ∷ used n ∷ rs)
    → b ≡ a + widths ls + width t
    → release a b (ls ++ t ∷ used n ∷ rs) ≡ ls ++ join t (join (free n) rs)
release-append s [] rs t n a b (i, w, h) c e =
    let other : (a == b) ≡ false = ground arith in
    let same : (a + width t == b) ≡ true = ground arith in rw (other, same) refl
release-append s (t' ∷ ls) rs t n a b (i, w, h) (q, c) e =
    let other : (a == b) ≡ false = ground arith in
    rw (other, release-append s ls rs t n (a + width t') b h c (omega (arith, e)))
      (join-Parted t' ls t (join (free n) rs) (used n ∷ rs) q)
