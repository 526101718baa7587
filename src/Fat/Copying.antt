-- ===== src/Fat/Copying.antt =====
-- The sectors that `fat32_mmap` of fat32.c reads, and what copying them leaves in memory.
use janus.Base.{
  ℕ, zero, suc, ◌+◌, ◌-◌, ◌*◌, ◌/◌, ◌%◌, ◌^◌, ◌≤◌, ◌<◌, ◌≡◌, ◌≢◌, refl, ◌∙◌, ap, false, ◌&&◌, some,
  List, [], ◌∷◌, ◌++◌, if◌then◌else◌, ◌==◌, leb, ltb, length, get_elem?, some-injective,
  none-ne-some, arith, inl, inr, ◌⊎◌,
}
use janus.Base.Int.{ℤ, pos, negsuc}
use janus.Memory.{Mem, store}
use janus.Memory.Laws.{store_self, store_ne}
use janus.Memory.Read.{le}
use janus.Disk.{is_io_error}
use janus.Fat.{Fat, sector_of, is_error_code}
use janus.Fat.Files.{rounds, less_sector, copy_bytes}

pub copy_bytes_lem :
    (n i : ℕ) (m buf : Mem) (p a : ℕ)
    → copy_bytes n i m buf p a ≡ (if leb p a && ltb a (p + n) then buf (i + (a - p)) % 256 else m a)
unfolding copy_bytes
copy_bytes_lem zero i m buf p a = ground arith
copy_bytes_lem (suc n) i m buf p a = ground (
  arith,
  copy_bytes_lem n (i + 1) (store m p (buf i)) buf (p + 1) a,
  store_self m p (buf i),
  store_ne m p (buf i) a,
)

-- Sector `k` of a cluster, as a pair of them.
abbrev pub pieces : (n k cluster : ℕ) → List (ℕ × ℕ)
pieces zero k cluster = []
pieces (suc n) k cluster = (cluster, k) ∷ pieces n (k + 1) cluster

pub length-pieces : (n k cluster : ℕ) → length (pieces n k cluster) ≡ n
length-pieces zero k cluster = refl
length-pieces (suc n) k cluster = ap suc (length-pieces n (k + 1) cluster)

pub get_elem?-pieces :
    (n k cluster i : ℕ) (rest : List (ℕ × ℕ))
    → i < n
    → get_elem? (pieces n k cluster ++ rest) i ≡ some (cluster, k + i)
get_elem?-pieces zero k cluster i rest h = absurd (omega (arith, h))
get_elem?-pieces (suc n) k cluster zero rest h = ap (λ z. some (cluster, z)) (omega arith)
get_elem?-pieces (suc n) k cluster (suc i) rest h =
    get_elem?-pieces n (k + 1) cluster i rest (omega (arith, h))
    ∙ ap (λ z. some (cluster, z)) (omega arith)

-- The sectors that a size takes, but one for a size of 0 and for one that has gone below it by less
-- than 511.
abbrev pub wanted : ℤ → ℕ
wanted (pos n) = if n == 0 then 1 else (n + 511) / 512
wanted (negsuc n) = if ltb n 510 then 1 else 0

pub rounds_lem : (size : ℤ) → rounds size ≡ wanted size
unfolding rounds
rounds_lem (pos n) = ground arith
rounds_lem (negsuc n) = ground arith

pub wanted-pos : (n k : ℕ) → 512 * k < n → k < wanted (pos n)
wanted-pos n k h = ground (arith, h)

-- The sectors that a chain of clusters is read from, for a file of that size: from each cluster
-- those that the size left takes, which is 512 less for each cluster before.
abbrev pub sectors_read : (size : ℤ) (cluster : ℕ) → List ℕ → List (ℕ × ℕ)
sectors_read size cluster [] = pieces (wanted size) 0 cluster
sectors_read size cluster (c ∷ cs) =
    pieces (wanted size) 0 cluster ++ sectors_read (less_sector size) c cs

pub no_error : (c : ℕ) → c < 0x0fffffff → is_error_code c ≡ false
no_error c h = ground arith

module _ (read : (drive lba : ℕ) → ℤ × Mem) (s : Fat) where
  -- The bytes of one sector.
  abbrev pub sector : ℕ × ℕ → Mem
  sector (cluster, k) = (read s.current_drive (sector_of s s.current_lba cluster k)).1

  -- The entry of a cluster as the table holds it.
  abbrev pub fat_entry : (cluster : ℕ) → ℕ
  fat_entry cluster =
      le 4 (read s.current_drive ((s.fat_begin_lba + cluster / 128) % 2 ^ 32)).1
        (4 * (cluster % 128))

  -- The clusters `cs` follow `cluster`, and the last of them has the mark of the end.
  abbrev pub Chain : (cluster : ℕ) → List ℕ → Type 0
  Chain cluster [] = fat_entry cluster ≡ 0x0fffffff
  Chain cluster (c ∷ cs) = (fat_entry cluster ≡ c) × (c ≢ 0) × (c < 0x0fffffff) × Chain c cs

  -- The drive reads without errors.
  abbrev pub Reads : Type 0
  Reads = (x : ℕ) → is_io_error (read s.current_drive x).0 ≡ false

  -- Sectors one behind the other.
  unfoldable pub lay : List (ℕ × ℕ) → Mem → (p : ℕ) → Mem
  lay [] m p = m
  lay (x ∷ xs) m p = lay xs (copy_bytes 512 0 m (sector x) p) (p + 512)

  pub lay-append :
      (xs ys : List (ℕ × ℕ)) (m : Mem) (p : ℕ)
      → lay (xs ++ ys) m p ≡ lay ys (lay xs m p) (p + 512 * length xs)
  unfolding lay
  lay-append [] ys m p = ap (lay ys m) (omega arith)
  lay-append (x ∷ xs) ys m p =
      lay-append xs ys (copy_bytes 512 0 m (sector x) p) (p + 512)
      ∙ ap (lay ys (lay xs (copy_bytes 512 0 m (sector x) p) (p + 512))) (omega arith)

  pub lay_outside :
      (xs : List (ℕ × ℕ)) (m : Mem) (p a : ℕ)
      → (a < p) ⊎ (p + 512 * length xs ≤ a)
      → lay xs m p a ≡ m a
  unfolding lay
  lay_outside [] m p a h = refl
  lay_outside (x ∷ xs) m p a h =
      lay_outside xs (copy_bytes 512 0 m (sector x) p) (p + 512) a
        (elim h [ inl l ↦ inl (omega (arith, l)) | inr r ↦ inr (omega (arith, r)) ])
      ∙ ground (arith, copy_bytes_lem 512 0 m (sector x) p a)

  in_sector :
      (m : Mem) (p : ℕ) (y : ℕ × ℕ) (j : ℕ)
      → j < 512
      → copy_bytes 512 0 m (sector y) p (p + j) ≡ sector y j % 256
  in_sector m p y j h =
      let e : 0 + (p + j - p) ≡ j = omega arith in
      ground (arith, copy_bytes_lem 512 0 m (sector y) p (p + j), ap (λ z. sector y z) e)

  pub lay_inside :
      (xs : List (ℕ × ℕ)) (m : Mem) (p i j : ℕ) {x : ℕ × ℕ}
      → get_elem? xs i ≡ some x
      → j < 512
      → lay xs m p (p + 512 * i + j) ≡ sector x j % 256
  unfolding lay
  lay_inside [] m p i j e h = absurd (none-ne-some _ e)
  lay_inside (y ∷ ys) m p zero j {x = x} e h =
      ap (lay ys (copy_bytes 512 0 m (sector y) p) (p + 512)) (omega arith)
      ∙ lay_outside ys (copy_bytes 512 0 m (sector y) p) (p + 512) (p + j) (inl (omega (arith, h)))
      ∙ in_sector m p y j h
      ∙ ap (λ z. sector z j % 256) (some-injective y x e)
  lay_inside (y ∷ ys) m p (suc i) j e h =
      ap (lay ys (copy_bytes 512 0 m (sector y) p) (p + 512)) (omega arith)
      ∙ lay_inside ys (copy_bytes 512 0 m (sector y) p) (p + 512) i j e h
