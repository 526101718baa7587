-- ===== src/Fat/Listing.antt =====
-- What `fat32_rd_cluster` of fat32.c lists of a directory without long names.
use janus.Base.{
  ℕ, zero, suc, ◌+◌, ◌*◌, ◌/◌, ◌%◌, ◌^◌, ◌<◌, ◌≡◌, ◌≢◌, refl, sym, ◌∙◌, ap, ap₂, true, false, not,
  ◌&&◌, ◌||◌, some, List, [], ◌∷◌, ◌++◌, ◌==◌, if◌then◌else◌, length, length-append, append-nil,
  append_assoc, arith, inl, inr, Bool-cases, ◌>>=◌,
}
use janus.Base.Int.{ℤ}
use janus.Memory.{Mem}
use janus.Memory.Read.{le}
use janus.Disk.{is_io_error}
use janus.Fat.{FileProps, Fat, sector_of, fat32_rd_fat, is_error_code, success}
use janus.Fat.Names.{short_name, push}
use janus.Fat.Cluster.{
  type_of, start_cluster, fill, in_use, short_entry, going, note_prev, read_entry, read_entries,
  read_sectors, fat32_rd_cluster, finish_cluster, chained, end_list,
}
use janus.Fat.Copying.{fat_entry, Chain, Reads, no_error}

-- The node of a directory entry at `p`, with its short name.
abbrev pub node_of : Mem → (p : ℕ) → FileProps
node_of buf p = record {
  st_clust = start_cluster buf p;
  size = le 4 buf (p + 28);
  file_type = type_of (buf (p + 11));
  filename = short_name buf p;
}

-- The entries that are in use, but not the volume's name.
abbrev pub node_at : Mem → (p : ℕ) → List FileProps
node_at buf p = if in_use buf p && not (buf (p + 11) == 0x08) then node_of buf p ∷ [] else []

-- No entry in use is one of a long name.
abbrev pub IsShort : Mem → (p : ℕ) → Type 0
IsShort buf p = in_use buf p ≡ true → (buf (p + 11) == 0x0f) ≡ false

-- The state with `xs` behind the files, and the node to fill next.
abbrev pub added : Fat → List FileProps → FileProps → Fat
added s xs l = record s { files = s.files ++ xs; item_count = s.item_count + length xs; last = l }

added-append :
    (s : Fat) (xs ys : List FileProps) (l l' : FileProps)
    → added (added s xs l) ys l' ≡ added s (xs ++ ys) l'
added-append s xs ys l l' =
    ap₂ (λ fs n. record s { files = fs; item_count = n; last = l' }) (append_assoc s.files xs ys)
      (omega (arith, length-append xs ys))

added-nil : (s : Fat) (l : FileProps) → record s { last = l } ≡ added s [] l
added-nil s l =
    ap₂ (λ fs n. record s { files = fs; item_count = n; last = l }) (sym (append-nil s.files))
      (omega arith)

-- The nodes of `n` entries from entry `i` on, and what is asked of them.
abbrev pub nodes : (n i : ℕ) → Mem → List FileProps
nodes zero i buf = []
nodes (suc n) i buf = node_at buf (i * 32) ++ nodes n (i + 1) buf

abbrev pub AllShort : (n i : ℕ) → Mem → Type 0
AllShort zero i buf = Unit
AllShort (suc n) i buf = IsShort buf (i * 32) × AllShort n (i + 1) buf

module _ (read : (drive lba : ℕ) → ℤ × Mem) (fresh : FileProps) where
  read_entry_lem :
      (drive lba cluster fuel k i prev : ℕ) (buf : Mem) (s : Fat)
      → prev ≢ 0x0f
      → IsShort buf (i * 32)
      → (prev' : ℕ) × (l : FileProps) × (prev' ≢ 0x0f)
        × (read_entry read drive lba cluster fresh fuel k i prev buf s
            ≡ going prev' buf (added s (node_at buf (i * 32)) l))
  unfolding read_entry note_prev short_entry fill push
  read_entry_lem drive lba cluster fuel k i prev buf s np short =
      let e : (prev == 0x0f) ≡ false = ground arith in
      elim (Bool-cases (in_use buf (i * 32))) [
        | inl u ↦
            let short' = short u in
            elim (Bool-cases (buf (i * 32 + 11) == 0x08)) [
              | inl v ↦ (
                buf (i * 32 + 11),
                s.last,
                ground arith,
                rw (e, u, short', v)
                    (rw u (ap (going (buf (i * 32 + 11)) buf) (added-nil s s.last))),
              )
              | inr v ↦ (buf (i * 32 + 11), fresh, ground arith, rw (e, u, short', v) (rw u refl))
            ]
        | inr u ↦ elim (Bool-cases ((buf (i * 32 + 11) == 0x0f) || (buf (i * 32 + 11) == 0x08))) [
          | inl v ↦
              (prev, s.last, np, rw (e, u, v) (rw u (ap (going prev buf) (added-nil s s.last))))
          | inr v ↦ (
            prev,
            (fill s buf (i * 32)).last,
            np,
            rw (e, u, v) (rw u (ap (going prev buf) (added-nil s (fill s buf (i * 32)).last))),
          )
        ]
      ]

  read_entries_lem :
      (drive lba cluster fuel n k i prev : ℕ) (buf : Mem) (s : Fat)
      → prev ≢ 0x0f
      → AllShort n i buf
      → (prev' : ℕ) × (l : FileProps) × (prev' ≢ 0x0f)
        × (read_entries read drive lba cluster fresh fuel n k i (going prev buf s)
            ≡ going prev' buf (added s (nodes n i buf) l))
  unfolding read_entries
  read_entries_lem drive lba cluster fuel zero k i prev buf s np short =
      (prev, s.last, np, ap (going prev buf) (added-nil s s.last))
  read_entries_lem drive lba cluster fuel (suc n) k i prev buf s np (short, rest) =
      let (p1, l1, np1, run1) = read_entry_lem drive lba cluster fuel k i prev buf s np short in
      let (p2, l2, np2, run2) =
        read_entries_lem drive lba cluster fuel n k (i + 1) p1 buf
          (added s (node_at buf (i * 32)) l1) np1 rest in
      (
        p2,
        l2,
        np2,
        ap (read_entries read drive lba cluster fresh fuel n k (i + 1)) run1
            ∙ run2
            ∙ ap (going p2 buf) (added-append s (node_at buf (i * 32)) (nodes n (i + 1) buf) l1 l2),
      )

  -- The nodes of `n` sectors of a cluster from sector `k` on.
  abbrev pub sector_nodes : (s : Fat) (drive lba cluster n k : ℕ) → List FileProps
  sector_nodes s drive lba cluster zero k = []
  sector_nodes s drive lba cluster (suc n) k =
      nodes 16 0 (read drive (sector_of s lba cluster k)).1
      ++ sector_nodes s drive lba cluster n (k + 1)

  abbrev pub SectorsShort : (s : Fat) (drive lba cluster n k : ℕ) → Type 0
  SectorsShort s drive lba cluster zero k = Unit
  SectorsShort s drive lba cluster (suc n) k =
      AllShort 16 0 (read drive (sector_of s lba cluster k)).1
      × SectorsShort s drive lba cluster n (k + 1)

  read_sectors_lem :
      (drive lba cluster fuel n k prev : ℕ) (buf : Mem) (s : Fat)
      → ((x : ℕ) → is_io_error (read drive x).0 ≡ false)
      → prev ≢ 0x0f
      → SectorsShort s drive lba cluster n k
      → (prev' : ℕ) × (buf' : Mem) × (l : FileProps) × (read_sectors read drive lba cluster fresh
            fuel n k
            (going prev buf s)
          ≡ going prev' buf' (added s (sector_nodes s drive lba cluster n k) l))
  unfolding read_sectors sector_of
  read_sectors_lem drive lba cluster fuel zero k prev buf s good np short =
      (prev, buf, s.last, ap (going prev buf) (added-nil s s.last))
  read_sectors_lem drive lba cluster fuel (suc n) k prev buf s good np (short, rest) =
      let at = sector_of s lba cluster k in
      let xs = nodes 16 0 (read drive at).1 in
      let (p1, l1, np1, run1) =
        read_entries_lem drive lba cluster fuel 16 k 0 prev (read drive at).1 s np short in
      let (p2, b2, l2, run2) =
        read_sectors_lem drive lba cluster fuel n (k + 1) p1 (read drive at).1 (added s xs l1) good
          np1 rest in
      (
        p2,
        b2,
        l2,
        rw (good at) (
            ap (read_sectors read drive lba cluster fresh fuel n (k + 1)) run1
            ∙ run2
            ∙ ap (going p2 b2)
                (added-append s xs (sector_nodes s drive lba cluster n (k + 1)) l1 l2)),
      )

  -- The nodes of a directory whose clusters are `cluster` and then `cs`.
  abbrev pub directory_nodes : Fat → (cluster : ℕ) → List ℕ → List FileProps
  directory_nodes s cluster [] =
      sector_nodes s s.current_drive s.current_lba cluster s.sectors_per_cluster 0
  directory_nodes s cluster (c ∷ cs) =
      sector_nodes s s.current_drive s.current_lba cluster s.sectors_per_cluster 0
      ++ directory_nodes s c cs

  abbrev pub DirectoryShort : Fat → (cluster : ℕ) → List ℕ → Type 0
  DirectoryShort s cluster [] =
      SectorsShort s s.current_drive s.current_lba cluster s.sectors_per_cluster 0
  DirectoryShort s cluster (c ∷ cs) =
      SectorsShort s s.current_drive s.current_lba cluster s.sectors_per_cluster 0
      × DirectoryShort s c cs

  -- On a drive that reads without errors, with fuel for the directory's clusters,
  -- `fat32_rd_cluster` succeeds on a directory without long names: behind the files there were it
  -- lists the entries in use but the volume's name, in their order and with their short names, and
  -- the node behind them has no name.
  pub fat32_rd_cluster_lem :
      (uninit : Mem) (fuel cluster : ℕ) (cs : List ℕ) (s : Fat)
      → Reads read s
      → Chain read s cluster cs
      → DirectoryShort s cluster cs
      → length cs < fuel
      → (l : FileProps) × (fat32_rd_cluster read fresh uninit fuel s s.current_drive s.current_lba
            cluster
          ≡ some (success, added s (directory_nodes s cluster cs) l))
        × (l.filename ≡ [])
  unfolding fat32_rd_cluster finish_cluster chained fat32_rd_fat sector_of
  fat32_rd_cluster_lem uninit zero cluster cs s good ch short h = absurd (omega (arith, h))
  fat32_rd_cluster_lem uninit (suc fuel) cluster [] s good ch short h =
      let ok = good ((s.fat_begin_lba + cluster / 128) % 2 ^ 32) in
      let end : (fat_entry read s cluster == 0x0fffffff) ≡ true = ground (arith, ch) in
      let (p, b, l, run) =
        read_sectors_lem s.current_drive s.current_lba cluster fuel s.sectors_per_cluster 0 0 uninit
          s good (omega arith) short in
      (record l { filename = [] }, rw (run, ok, end) refl, refl)
  fat32_rd_cluster_lem uninit (suc fuel) cluster (c ∷ cs) s good (entry, ne, lt, ch) (short, rest)
        h =
      let ok = good ((s.fat_begin_lba + cluster / 128) % 2 ^ 32) in
      let more : (fat_entry read s cluster == 0x0fffffff) ≡ false = ground (arith, entry) in
      let word : is_error_code (fat_entry read s cluster) ≡ false =
        ap is_error_code entry ∙ no_error c lt in
      let next : (fat_entry read s cluster == 0) ≡ false = ground (arith, entry) in
      let xs = sector_nodes s s.current_drive s.current_lba cluster s.sectors_per_cluster 0 in
      let (p, b, l, run) =
        read_sectors_lem s.current_drive s.current_lba cluster fuel s.sectors_per_cluster 0 0 uninit
          s good (omega arith) short in
      let (l', run', named) =
        fat32_rd_cluster_lem uninit fuel c cs (added s xs l) good ch rest (omega (arith, h)) in
      (
        record l' { filename = [] },
        rw (run, ok, more, word, next)
            (ap (λ o. o >>= (λ r. some (success, end_list r.1)))
                (ap
                    (fat32_rd_cluster read fresh uninit fuel (added s xs l) s.current_drive
                      s.current_lba)
                    entry
                  ∙ run')
              ∙ ap (λ z. some (success, z))
                  (added-append s xs (directory_nodes s c cs) l (record l' { filename = [] }))),
        refl,
      )
