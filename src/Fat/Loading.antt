-- ===== src/Fat/Loading.antt =====
-- What `fat32_mmap` of fat32.c leaves in memory for a chain of clusters.
use janus.Base.{
  ℕ, zero, suc, ◌+◌, ◌*◌, ◌/◌, ◌%◌, ◌^◌, ◌≤◌, ◌<◌, ◌≡◌, refl, sym, ◌∙◌, ap, true, false, some, List,
  [], ◌∷◌, ◌==◌, length, append-nil, get_elem?, arith, ◌⊎◌,
}
use janus.Base.Int.{ℤ, pos}
use janus.Memory.{Mem}
use janus.Fat.{Fat, sector_of, fat32_rd_fat, is_error_code}
use janus.Fat.Files.{less_sector, copy_bytes, copied_to, copy_sectors, follow_chain, fat32_mmap}
use janus.Fat.Copying.{
  wanted, rounds_lem, wanted-pos, pieces, length-pieces, get_elem?-pieces, sectors_read, no_error,
  sector, fat_entry, Chain, Reads, lay, lay-append, lay_outside, lay_inside,
}

module _ (read : (drive lba : ℕ) → ℤ × Mem) (s : Fat) where
  copy_sectors_lem :
      (n k cluster : ℕ) (m : Mem) (p : ℕ)
      → Reads read s
      → copy_sectors read n k s s.current_drive s.current_lba cluster m p
        ≡ copied_to (lay read s (pieces n k cluster) m p) (p + 512 * n)
  unfolding copy_sectors lay
  copy_sectors_lem zero k cluster m p good = ap (copied_to m) (omega arith)
  copy_sectors_lem (suc n) k cluster m p good = rw (good (sector_of s s.current_lba cluster k)) (
      copy_sectors_lem n (k + 1) cluster (copy_bytes 512 0 m (sector read s (cluster, k)) p)
        (p + 512) good
      ∙ ap (copied_to (lay read s (pieces (suc n) k cluster) m p)) (omega arith))

  lay-cluster :
      (size : ℤ) (cluster c : ℕ) (cs : List ℕ) (m : Mem) (p : ℕ)
      → lay read s (sectors_read size cluster (c ∷ cs)) m p
        ≡ lay read s
            (sectors_read (less_sector size) c cs)
            (lay read s (pieces (wanted size) 0 cluster) m p)
            (p + 512 * wanted size)
  lay-cluster size cluster c cs m p =
      lay-append read s (pieces (wanted size) 0 cluster) (sectors_read (less_sector size) c cs) m p
      ∙ ap
          (λ n.
            lay read s (sectors_read (less_sector size) c cs)
              (lay read s (pieces (wanted size) 0 cluster) m p) (p + 512 * n))
          (length-pieces (wanted size) 0 cluster)

  -- On fuel for each cluster `fat32_mmap` returns, with the sectors of the chain in memory one
  -- behind the other.
  fat32_mmap-lay :
      (fuel cluster : ℕ) (cs : List ℕ) (m : Mem) (p : ℕ) (size : ℤ)
      → Reads read s
      → Chain read s cluster cs
      → length cs < fuel
      → fat32_mmap read fuel s s.current_drive s.current_lba cluster m p size
        ≡ some (lay read s (sectors_read size cluster cs) m p)
  unfolding fat32_mmap fat32_rd_fat follow_chain
  fat32_mmap-lay zero cluster cs m p size good ch h = absurd (omega (arith, h))
  fat32_mmap-lay (suc fuel) cluster [] m p size good ch h =
      let ok = good ((s.fat_begin_lba + cluster / 128) % 2 ^ 32) in
      let end : (fat_entry read s cluster == 0x0fffffff) ≡ true = ground (arith, ch) in
      rw (rounds_lem size, copy_sectors_lem (wanted size) 0 cluster m p good, ok, end) refl
  fat32_mmap-lay (suc fuel) cluster (c ∷ cs) m p size good (entry, ne, lt, ch) h =
      let ok = good ((s.fat_begin_lba + cluster / 128) % 2 ^ 32) in
      let more : (fat_entry read s cluster == 0x0fffffff) ≡ false = ground (arith, entry) in
      let word : is_error_code (fat_entry read s cluster) ≡ false =
        ap is_error_code entry ∙ no_error c lt in
      let next : (fat_entry read s cluster == 0) ≡ false = ground (arith, entry) in
      let m' = lay read s (pieces (wanted size) 0 cluster) m p in
      let q = p + 512 * wanted size in
      rw (rounds_lem size, copy_sectors_lem (wanted size) 0 cluster m p good, ok, more, word, next)
        (ap (λ z. fat32_mmap read fuel s s.current_drive s.current_lba z m' q (less_sector size))
            entry
          ∙ fat32_mmap-lay fuel c cs m' q (less_sector size) good ch (omega (arith, h))
          ∙ ap some (sym (lay-cluster size cluster c cs m p)))

  -- On a drive that reads without errors, with fuel for the clusters of the chain, `fat32_mmap`
  -- returns: the sectors it reads, `sectors_read`, are in memory one behind the other from `p` on,
  -- and nothing else changed. From each cluster these are the sectors that the size takes, less 512
  -- for each cluster before, but one where that is from 0 to -510, and none below.
  pub fat32_mmap-Chain :
      (fuel cluster : ℕ) (cs : List ℕ) (m : Mem) (p : ℕ) (size : ℤ)
      → Reads read s
      → Chain read s cluster cs
      → length cs < fuel
      → (m' : Mem) × (fat32_mmap read fuel s s.current_drive s.current_lba cluster m p size
          ≡ some m')
        × ((i j : ℕ) (x : ℕ × ℕ)
            → get_elem? (sectors_read size cluster cs) i ≡ some x
            → j < 512
            → m' (p + 512 * i + j) ≡ sector read s x j % 256)
        × ((a : ℕ) → (a < p) ⊎ (p + 512 * length (sectors_read size cluster cs) ≤ a) → m' a ≡ m a)
  fat32_mmap-Chain fuel cluster cs m p size good ch h =
      let xs = sectors_read size cluster cs in
      (
        lay read s xs m p,
        fat32_mmap-lay fuel cluster cs m p size good ch h,
        (λ i j x e l. lay_inside read s xs m p i j e l),
        (λ a l. lay_outside read s xs m p a l),
      )

  -- On a drive that reads without errors `fat32_mmap` returns for a file whose chain is one
  -- cluster, and each byte of the file is in memory.
  pub fat32_mmap_one :
      (fuel cluster n : ℕ) (m : Mem) (p : ℕ)
      → Reads read s
      → Chain read s cluster []
      → (m' : Mem) × (fat32_mmap read (suc fuel) s s.current_drive s.current_lba cluster m p (pos n)
          ≡ some m')
        × ((a : ℕ) → a < n → m' (p + a) ≡ sector read s (cluster, a / 512) (a % 512) % 256)
  fat32_mmap_one fuel cluster n m p good ch =
      let (m', run, inside, out) =
        fat32_mmap-Chain (suc fuel) cluster [] m p (pos n) good ch (omega arith) in
      (
        m',
        run,
        λ a h.
            ap m' (omega arith)
            ∙ inside (a / 512) (a % 512) (cluster, 0 + a / 512)
                (ap (λ xs. get_elem? xs (a / 512))
                    (sym (append-nil (pieces (wanted (pos n)) 0 cluster)))
                  ∙ get_elem?-pieces (wanted (pos n)) 0 cluster (a / 512) []
                      (wanted-pos n (a / 512) (omega (arith, h))))
                (omega arith)
            ∙ ap (λ z. sector read s (cluster, z) (a % 512) % 256) (omega arith),
      )

  -- The sectors that `fat32_mmap` reads from the first cluster of a chain are not bounded by
  -- `sectors_per_cluster`: on a drive that reads without errors, of a file that is longer than a
  -- cluster and has a chain of two, the bytes behind the first cluster are those of the disk's
  -- next sector, whatever cluster follows in the chain.
  pub fat32_mmap_past_cluster :
      (fuel cluster c n : ℕ) (m : Mem) (p j : ℕ)
      → Reads read s
      → Chain read s cluster (c ∷ [])
      → 512 * s.sectors_per_cluster < n
      → j < 512
      → (m' : Mem) × (fat32_mmap read
            (suc (suc fuel))
            s
            s.current_drive
            s.current_lba
            cluster
            m
            p
            (pos n)
          ≡ some m')
        × (m' (p + 512 * s.sectors_per_cluster + j)
            ≡ sector read s (cluster, s.sectors_per_cluster) j % 256)
  fat32_mmap_past_cluster fuel cluster c n m p j good ch h l =
      let (m', run, inside, out) =
        fat32_mmap-Chain (suc (suc fuel)) cluster (c ∷ []) m p (pos n) good ch (omega arith) in
      (
        m',
        run,
        inside s.sectors_per_cluster j (cluster, s.sectors_per_cluster)
            (get_elem?-pieces (wanted (pos n)) 0 cluster s.sectors_per_cluster _
                (wanted-pos n s.sectors_per_cluster h)
              ∙ ap (λ z. some (cluster, z)) (omega arith))
            l,
      )
