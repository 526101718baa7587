-- ===== src/Fat/Finding.antt =====
-- `load_fat32` of fat32.c from the boot sector to the bytes of the file.
use janus.Base.{
  ℕ, suc, ◌+◌, ◌*◌, ◌/◌, ◌%◌, ◌^◌, ◌<◌, ◌≡◌, ◌≢◌, refl, ◌∙◌, ap, true, false, some, List, [], ◌∷◌,
  ◌++◌, ◌==◌, same_text, same_text-eq, length, arith, inl, inr, Bool-cases,
}
use janus.Base.Int.{ℤ, pos}
use janus.Memory.{Mem}
use janus.Memory.Read.{le}
use janus.Disk.{is_io_error}
use janus.Fat.{FileProps, Fat, sector_of, fat32_rd_bootsec}
use janus.Fat.Files.{listed, init_from, init_fat32, find_node, to_int, load_found, load_fat32}
use janus.Fat.Listing.{added, directory_nodes, DirectoryShort, fat32_rd_cluster_lem}
use janus.Fat.Copying.{sector, Chain}
use janus.Fat.Loading.{fat32_mmap_one}

-- The node behind the list, without a name, is not found.
find_node-append :
    (c : List ℕ) (xs : List FileProps) (l : FileProps)
    → c ≢ []
    → l.filename ≡ []
    → find_node c (xs ++ l ∷ []) ≡ find_node c xs
unfolding find_node
find_node-append c [] l ne e =
    let n : same_text c l.filename ≡ false = elim (Bool-cases (same_text c l.filename)) [
      | inl t ↦ absurd (ne (same_text-eq c l.filename t ∙ e))
      | inr t ↦ t
    ] in
    rw n refl
find_node-append c (x ∷ xs) l ne e = elim (Bool-cases (same_text c x.filename)) [
  | inl t ↦ rw t refl
  | inr t ↦ rw t (find_node-append c xs l ne e)
]

module _ (read : (drive lba : ℕ) → ℤ × Mem) (fresh : FileProps) (uninit : Mem) (s : Fat) where
  -- The boot sector, and the state that it makes, with the list empty.
  abbrev pub boot : Mem
  boot = (read s.current_drive s.current_lba).1

  abbrev pub booted : Fat
  booted = record s {
    files = [];
    last = fresh;
    item_count = 0;
    fat_begin_lba = (s.current_lba + le 2 boot 14) % 2 ^ 32;
    cluster_begin_lba = (le 2 boot 14 + boot 16 * le 4 boot 36) % 2 ^ 32;
    root_dir_first_cluster = le 4 boot 44;
    sectors_per_cluster = boot 13;
  }

  abbrev pub Reads : Type 0
  Reads = (x : ℕ) → is_io_error (read s.current_drive x).0 ≡ false

  init_fat32_lem :
      (fuel : ℕ) (cs : List ℕ)
      → Reads
      → le 2 boot 510 ≡ 0xaa55
      → Chain read booted s.current_cluster cs
      → DirectoryShort read fresh booted s.current_cluster cs
      → length cs < fuel
      → let nodes = directory_nodes read fresh booted s.current_cluster cs in
        (l : FileProps) × (l.filename ≡ [])
        × (init_fat32 read fresh uninit fuel s s.current_drive s.current_lba s.current_cluster
            ≡ some (record {
              code = length nodes;
              walk = nodes ++ l ∷ [];
              state = added booted nodes l;
            }))
  unfolding init_fat32 init_from listed fat32_rd_bootsec
  init_fat32_lem fuel cs good magic ch short h =
      let (l, run, named) =
        fat32_rd_cluster_lem read fresh uninit fuel s.current_cluster cs booted good ch short h in
      let signed : (le 2 boot 510 == 0xaa55) ≡ true = ground (arith, magic) in
      (
        l,
        named,
        rw (good s.current_lba, signed, run)
            (ap
              (λ n. some (record {
                code = n;
                walk = directory_nodes read fresh booted s.current_cluster cs ++ l ∷ [];
                state = added booted (directory_nodes read fresh booted s.current_cluster cs) l;
              }))
              (omega arith)),
      )

  -- On a drive that reads without errors, with fuel for the clusters of the current directory,
  -- which has no long names, and with a boot sector that has the signature 0xAA55: the first entry in use with the name, but for the volume's, is a file
  -- of less than 2^31 bytes whose chain is one cluster. Then `load_fat32`, given an address other
  -- than 0, returns it and has each byte of the file in memory from there on.
  pub load_fat32_lem :
      (fuel : ℕ) (cs : List ℕ) (m : Mem) (c : List ℕ) (load_mem heap : ℕ) (f : FileProps)
      → Reads
      → le 2 boot 510 ≡ 0xaa55
      → Chain read booted s.current_cluster cs
      → DirectoryShort read fresh booted s.current_cluster cs
      → length cs < suc fuel
      → c ≢ []
      → find_node c (directory_nodes read fresh booted s.current_cluster cs) ≡ some f
      → f.file_type ≢ 2
      → f.size < 2 ^ 31
      → Chain read booted f.st_clust []
      → load_mem ≢ 0
      → (m' : Mem) × (s' : Fat) × (load_fat32 read fresh uninit (suc fuel) s m c load_mem heap
          ≡ some (load_mem, m', s'))
        × ((a : ℕ)
            → a < f.size
            → m' (load_mem + a) ≡ sector read booted (f.st_clust, a / 512) (a % 512) % 256)
  unfolding load_fat32 load_found sector_of
  load_fat32_lem fuel cs m c load_mem heap f good magic ch short h ne found file small end to =
      let nodes = directory_nodes read fresh booted s.current_cluster cs in
      let (l, named, run) = init_fat32_lem (suc fuel) cs good magic ch short h in
      let s' = added booted nodes l in
      let find = find_node-append c nodes l ne named ∙ found in
      let regular : (f.file_type == 2) ≡ false = ground (arith, file) in
      let given : (load_mem == 0) ≡ false = ground (arith, to) in
      let int : to_int f.size ≡ pos f.size = ground (arith, small) in
      let (m', loaded, bytes) = fat32_mmap_one read s' fuel f.st_clust f.size m load_mem good end in
      (m', s', rw (run, find, regular, given, int, loaded) refl, bytes)
