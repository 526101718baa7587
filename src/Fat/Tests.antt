-- ===== src/Fat/Tests.antt =====
-- A small FAT32 disk, and the theorems at it.
use janus.Base.{
  ℕ, ◌+◌, ◌*◌, ◌/◌, ◌%◌, ◌<◌, ◌≤◌, ◌≡◌, refl, none, some, [], ◌∷◌, ◌++◌, ◌==◌, ◌||◌, if◌then◌else◌,
  leb, get_elem?, get_or, replicate, arith, ◌⊎◌,
}
use janus.Base.Int.{negsuc, ℤ, pos}
use janus.Memory.{Mem}
use janus.Memory.Read.{le}
use janus.Fat.{FileProps, Fat, sector_of, success}
use janus.Fat.Names.{short_name, long_piece, before_nul, push, generate_long_name}
use janus.Fat.LongNames.{generate_long_name_lem}
use janus.Fat.Cluster.{fat32_rd_cluster}
use janus.Fat.Files.{rounds, find_node, fat32_mmap, load_fat32}
use janus.Fat.Finding.{booted, load_fat32_lem}
use janus.Fat.Listing.{AllShort, added, fat32_rd_cluster_lem}
use janus.Fat.Copying.{sector}
use janus.Fat.Loading.{fat32_mmap-Chain, fat32_mmap_past_cluster}
use janus.Fat.Pathname.{split_path, split_path-path}

-- The file allocation table: the clusters 2, 3 and 5 end a chain, 5 follows 4.
abbrev table : Mem
table a =
    get_or
      (replicate 8 0
        ++ 255 ∷ 255 ∷ 255 ∷ 15 ∷ 255 ∷ 255 ∷ 255 ∷ 15 ∷ 5 ∷ 0 ∷ 0 ∷ 0 ∷ 255 ∷ 255 ∷ 255 ∷ 15 ∷ [])
      a 0

-- The entries A.TXT, one that is deleted, and the directory B.
abbrev root_sector : Mem
root_sector a =
    get_or
      (65 ∷ replicate 7 32
        ++ 84 ∷ 88 ∷ 84 ∷ 0x20 ∷ replicate 14 0
        ++ 3 ∷ 0 ∷ 10 ∷ 0 ∷ 0 ∷ 0 ∷ 0xe5 ∷ replicate 10 32
        ++ 0x20 ∷ replicate 20 0
        ++ 66 ∷ replicate 10 32
        ++ 0x10 ∷ replicate 14 0
        ++ 4 ∷ [])
      a 0

-- One sector in a cluster, 32 before the table and 2 tables of 34 sectors.
abbrev first_sector : Mem
first_sector a =
    if a == 13
    then 1
    else (if a == 14
        then 32
        else (if (a == 16) || (a == 44)
            then 2
            else if a == 36
            then 34
            else if a == 510
            then 0x55
            else if a == 511
            then 0xaa
            else 0))

-- Sector 0 is the boot sector, 32 is the table, 100 the root directory; other sectors hold bytes counted from their number.
abbrev disk : (drive lba : ℕ) → ℤ × Mem
disk drive lba = (
  pos 1,
  λ a.
      if lba == 0
      then first_sector a
      else if lba == 32
      then table a
      else if lba == 100
      then root_sector a
      else (lba + a) % 256,
)

abbrev fresh : FileProps
fresh = record { st_clust = 0; size = 0; file_type = 0; filename = [] }

abbrev state : Fat
state = record {
  fat_begin_lba = 32;
  cluster_begin_lba = 100;
  sectors_per_cluster = 1;
  root_dir_first_cluster = 2;
  current_drive = 0;
  current_lba = 0;
  current_cluster = 2;
  item_count = 0;
  files = [];
  last = fresh;
}

abbrev empty : Mem
empty a = 0

-- A path of 101 bytes overruns its buffer.
long_path : split_path (replicate 101 68) ≡ none
unfolding split_path
long_path = refl

-- Where the size left is -510, a sector is read, at -511 none.
rounds_of_rest : (rounds (negsuc 509) ≡ 1) × (rounds (negsuc 510) ≡ 0)
unfolding rounds
rounds_of_rest = (refl, refl)

split_path-path_example :
    split_path (68 ∷ 47 ∷ 66 ∷ 47 ∷ []) ≡ some (some ((68 ∷ []) ∷ (66 ∷ []) ∷ []))
split_path-path_example =
    split_path-path ((68 ∷ [], 0) ∷ (66 ∷ [], 1) ∷ [])
      (
        (λ e. cc),
        ((λ e. omega (arith, e)), (λ e. omega (arith, e)), tt),
        ((λ e. cc), ((λ e. omega (arith, e)), (λ e. omega (arith, e)), tt), tt),
      )
      (omega arith) (omega arith)

fat32_mmap-Chain_example :
    (m' : Mem) × (fat32_mmap disk 2 state 0 0 4 empty 1000 (pos 600) ≡ some m')
    × ((i j : ℕ) (x : ℕ × ℕ)
        → get_elem? ((4, 0) ∷ (4, 1) ∷ (5, 0) ∷ []) i ≡ some x
        → j < 512
        → m' (1000 + 512 * i + j) ≡ sector disk state x j % 256)
    × ((a : ℕ) → (a < 1000) ⊎ (2536 ≤ a) → m' a ≡ 0)
unfolding le
fat32_mmap-Chain_example =
    fat32_mmap-Chain disk state 2 4 (5 ∷ []) empty 1000 (pos 600) (λ x. refl)
      (refl, ground arith, omega arith, refl) (omega arith)

fat32_mmap_past_cluster_example :
    (m' : Mem) × (fat32_mmap disk 2 state 0 0 4 empty 1000 (pos 600) ≡ some m') × (m' 1512 ≡ 103)
unfolding le sector_of
fat32_mmap_past_cluster_example =
    fat32_mmap_past_cluster disk state 0 4 5 600 empty 1000 0 (λ x. refl)
      (refl, ground arith, omega arith, refl) (omega arith) (omega arith)

AllShort-root : AllShort 16 0 root_sector
AllShort-root = (
  λ u. refl,
  (
    λ u. refl,
    (
      λ u. refl,
      (
        λ u. refl,
        (
          λ u. refl,
          (
            λ u. refl,
            (
              λ u. refl,
              (
                λ u. refl,
                (
                  λ u. refl,
                  (
                    λ u. refl,
                    (
                      λ u. refl,
                      (λ u. refl, (λ u. refl, (λ u. refl, (λ u. refl, (λ u. refl, tt))))),
                    ),
                  ),
                ),
              ),
            ),
          ),
        ),
      ),
    ),
  ),
)

fat32_rd_cluster_lem_example :
    (l : FileProps) × (fat32_rd_cluster disk fresh empty 1 state 0 0 2
      ≡ some (
        success,
        added state
            (record {
              st_clust = 3;
              size = 10;
              file_type = 1;
              filename = 65 ∷ 46 ∷ 84 ∷ 88 ∷ 84 ∷ [];
            }
              ∷ record { st_clust = 4; size = 0; file_type = 2; filename = 66 ∷ [] }
              ∷ [])
            l,
      ))
    × (l.filename ≡ [])
unfolding le sector_of short_name
fat32_rd_cluster_lem_example =
    fat32_rd_cluster_lem disk fresh empty 1 2 [] state (λ x. refl) refl (AllShort-root, tt)
      (omega arith)

load_fat32_lem_example :
    (m' : Mem) × (s' : Fat) × (load_fat32 disk fresh empty 1 state empty
        (65 ∷ 46 ∷ 84 ∷ 88 ∷ 84 ∷ [])
        1000
        0
      ≡ some (1000, m', s'))
    × ((a : ℕ)
        → a < 10
        → m' (1000 + a) ≡ sector disk (booted disk fresh empty state) (3, a / 512) (a % 512) % 256)
unfolding le sector_of short_name find_node
load_fat32_lem_example =
    load_fat32_lem disk fresh empty state 0 [] empty (65 ∷ 46 ∷ 84 ∷ 88 ∷ 84 ∷ []) 1000 0
      (record { st_clust = 3; size = 10; file_type = 1; filename = 65 ∷ 46 ∷ 84 ∷ 88 ∷ 84 ∷ [] })
      (λ x. refl) refl refl (AllShort-root, tt) (omega arith) (λ e. cc) refl (λ e. omega (arith, e))
      (omega arith) refl (λ e. omega (arith, e))

-- Two entries of a long name: thirteen times "a" in the one at 32, and then "b".
abbrev long_name : Mem
long_name a =
    if a == 0
    then 0x42
    else (if a == 32 then 1 else if leb 32 a then 97 else if a == 1 then 98 else 0)

generate_long_name_lem_example :
    generate_long_name disk 0 0 2 fresh state 2 long_name 2 0
    ≡ some (long_name, push state (replicate 13 97 ++ 98 ∷ []) fresh)
unfolding long_piece before_nul
generate_long_name_lem_example =
    generate_long_name_lem disk 0 0 2 fresh state 2 1 2 0 long_name
      (omega arith, refl, (omega arith, (λ e. omega (arith, e)))) (omega arith)
