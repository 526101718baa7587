-- ===== src/Fat/Files.antt =====
-- `init_fat32`, `load_fat32`, `chdir_fat32`, `fat32_mmap` and `root_fat32` of fat32.c.
use janus.Base.{
  ℕ, zero, suc, ◌+◌, ◌-◌, ◌/◌, ◌^◌, Option, none, some, List, [], ◌∷◌, ◌++◌, ◌==◌, if◌then◌else◌,
  leb, same_text, ◌>>=◌,
}
use janus.Base.Int.{ℤ, pos, negsuc, sub_ℕ}
use janus.Memory.{Mem, store}
use janus.Disk.{is_io_error}
use janus.Fat.{FileProps, Fat, sector_of, fat32_rd_fat, fat32_rd_bootsec, is_error_code}
use janus.Fat.Cluster.{fat32_rd_cluster}
use janus.Fat.Pathname.{split_path}

-- FIL_NOT_FOUND, NOT_REG_FILE, DIR_NOT_FOUND, PAT_LEN_EXCEED and CD_ERR.
abbrev pub fil_not_found : ℕ
fil_not_found = 2 ^ 32 - 5

abbrev pub not_reg_file : ℕ
not_reg_file = 2 ^ 32 - 6

abbrev pub dir_not_found : ℕ
dir_not_found = 2 ^ 32 - 7

abbrev pub pat_len_exceed : ℕ
pat_len_exceed = 2 ^ 32 - 9

abbrev pub cd_err : ℕ
cd_err = 2 ^ 32 - 10

-- Sectors that the loop of `fat32_mmap` reads: k from 0 to (size - 1) / 512, which C rounds
-- towards 0, so that a size of -511 or less gives none.
unfoldable pub rounds : ℤ → ℕ
rounds (pos n) = (n - 1) / 512 + 1
rounds (negsuc n) = if leb 510 n then 0 else 1

-- size - 512
abbrev pub less_sector : ℤ → ℤ
less_sector (pos n) = sub_ℕ n 512
less_sector (negsuc n) = negsuc (n + 512)

-- `for(i = 0; i < 512; i++) *mem_loc++ = mmap_data[i];`, `n` bytes from `i` on.
unfoldable pub copy_bytes : (n i : ℕ) → Mem → (buf : Mem) → (mem_loc : ℕ) → Mem
unfolding store
copy_bytes zero i m buf mem_loc = m
copy_bytes (suc n) i m buf mem_loc =
    copy_bytes n (i + 1) (store m mem_loc (buf i)) buf (mem_loc + 1)

-- What the loop over the sectors comes to: an error, or the memory and `mem_loc`.
pub data Copied : Type 0 where
  failed : Mem → Copied
  copied_to : Mem → (mem_loc : ℕ) → Copied

module _ (read : (drive lba : ℕ) → ℤ × Mem) where
  unfoldable pub copy_sectors :
      (n k : ℕ) → Fat → (drive lba cluster : ℕ) → Mem → (mem_loc : ℕ) → Copied
  copy_sectors zero k s drive lba cluster m mem_loc = copied_to m mem_loc
  copy_sectors (suc n) k s drive lba cluster m mem_loc =
      let (code, buf) = read drive (sector_of s lba cluster k) in
      let rest =
        copy_sectors n (k + 1) s drive lba cluster (copy_bytes 512 0 m buf mem_loc)
          (mem_loc + 512) in
      if is_io_error code then failed m else rest

  -- Behind the loop: the chain, with the drive and partition of the globals.
  unfoldable pub follow_chain :
      (again : (cluster : ℕ) → Mem → (mem_loc : ℕ) → Option Mem)
      → Fat
      → (drive cluster : ℕ) → Copied
      → Option Mem
  follow_chain again s drive cluster (failed m) = some m
  follow_chain again s drive cluster (copied_to m mem_loc) =
      let next = fat32_rd_fat read s drive cluster in
      let rest = again next m mem_loc in
      if is_error_code next then some m else if next == 0 then some m else rest

  -- The memory behind the call; the code that it returns, if any, is not looked at. `none` is that
  -- the fuel ran out.
  unfoldable pub fat32_mmap :
      (fuel : ℕ) → Fat → (drive lba cluster : ℕ) → Mem → (mem_loc : ℕ) → (size : ℤ) → Option Mem
  unfolding follow_chain
  fat32_mmap zero s drive lba cluster m mem_loc size = none
  fat32_mmap (suc fuel) s drive lba cluster m mem_loc size =
      follow_chain
        (λ next m' p. fat32_mmap fuel s s.current_drive s.current_lba next m' p (less_sector size))
        s drive cluster (copy_sectors (rounds size) 0 s drive lba cluster m mem_loc)

-- What `init_fat32` leaves: the code, or the count of items, the nodes from `fat_temp` on, and the
-- state.
pub record Listing : Type 0 where
  pub code : ℕ
  pub walk : List FileProps
  pub state : Fat

-- What `chdir_fat32` returns: the list, from `fat_file_prop` on, or a code.
pub data Answer : Type 0 where
  listing : List FileProps → Answer
  refused : (code : ℕ) → Answer

abbrev pub whole_list : Fat → List FileProps
whole_list s = s.files ++ s.last ∷ []

-- The first node of that name from `fat_temp` on.
unfoldable pub find_node : (name : List ℕ) → List FileProps → Option FileProps
find_node name [] = none
find_node name (f ∷ fs) = if same_text name f.filename then some f else find_node name fs

-- A word as an int.
abbrev pub to_int : ℕ → ℤ
to_int n = if leb (2 ^ 31) n then negsuc (2 ^ 32 - 1 - n) else pos n

module _ (read : (drive lba : ℕ) → ℤ × Mem) (fresh : FileProps) (uninit : Mem) where
  unfoldable pub listed : ℕ × Fat → Listing
  listed (code, s) =
      if is_error_code code
      then record { code = code; walk = s.last ∷ []; state = s }
      else record { code = s.item_count; walk = s.files ++ s.last ∷ []; state = s }

  unfoldable pub init_from : (fuel drive lba cluster : ℕ) → ℕ × Fat → Option Listing
  unfolding listed
  init_from fuel drive lba cluster (code, s) =
      if is_error_code code
      then some (record { code = code; walk = fresh ∷ []; state = s })
      else fat32_rd_cluster read fresh uninit fuel s drive lba cluster >>= (λ r. some (listed r))

  unfoldable pub init_fat32 : (fuel : ℕ) → Fat → (drive lba cluster : ℕ) → Option Listing
  unfolding init_from
  init_fat32 fuel s drive lba cluster =
      let empty : Fat = record s { files = []; last = fresh; item_count = 0 } in
      init_from fuel drive lba cluster (fat32_rd_bootsec read empty drive lba)

  -- `found` of `load_fat32`: the address or code returned, and the memory. `heap` is what
  -- `kmalloc(fat_temp->size)` returns.
  unfoldable pub load_found :
      (fuel : ℕ) → Fat → Mem → (load_mem heap : ℕ) → Option FileProps → Option (ℕ × Mem)
  load_found fuel s m load_mem heap none = some (fil_not_found, m)
  load_found fuel s m load_mem heap (some f) =
      let to = if load_mem == 0 then heap else load_mem in
      if f.file_type == 2
      then some (not_reg_file, m)
      else fat32_mmap read fuel s s.current_drive s.current_lba f.st_clust m to (to_int f.size)
        >>= (λ m'. some (to, m'))

  unfoldable pub load_fat32 :
      (fuel : ℕ) → Fat → Mem → (c : List ℕ) → (load_mem heap : ℕ) → Option (ℕ × Mem × Fat)
  unfolding load_found find_node
  load_fat32 fuel s m c load_mem heap =
      init_fat32 fuel s s.current_drive s.current_lba s.current_cluster >>= (λ l.
        load_found fuel l.state m load_mem heap (find_node c l.walk)
        >>= (λ r. some (r.0, r.1, l.state)))

  pub again : (fuel : ℕ) → Fat → Option Listing
  again fuel s = init_fat32 fuel s s.current_drive s.current_lba s.current_cluster

  -- One part of the path. `none` inside is that the walk goes on.
  enter : (fuel : ℕ) → Fat → Option FileProps → Option (Option Answer × Listing)
  unfolding again
  enter fuel s none = again fuel s >>= (λ l. some (some (refused dir_not_found), l))
  enter fuel s (some f) =
      if f.file_type == 2
      then again fuel (record s { current_cluster = f.st_clust }) >>= (λ l. some (none, l))
      else some (some (refused cd_err), record { code = 0; walk = []; state = s })

  walk_on :
      (rest : Listing → Option (Answer × Fat))
      → Option (Option Answer × Listing)
      → Option (Answer × Fat)
  walk_on rest none = none
  walk_on rest (some (none, l)) = rest l
  walk_on rest (some (some a, l)) = some (a, l.state)

  pub walk_path : (fuel : ℕ) → List (List ℕ) → Listing → Option (Answer × Fat)
  unfolding enter walk_on find_node
  walk_path fuel [] l = some (listing (whole_list l.state), record l.state { item_count = 0 })
  walk_path fuel ([] ∷ parts) l = walk_path fuel parts l
  walk_path fuel ((c ∷ cs) ∷ parts) l =
      walk_on (walk_path fuel parts) (enter fuel l.state (find_node (c ∷ cs) l.walk))

  -- The path "." reads the directory a second time. `none` is that the fuel ran out or the path
  -- overruns its buffer.
  chdir_parts :
      (fuel : ℕ) → Fat → (c : List ℕ) → Option (Option (List (List ℕ))) → Option (Answer × Fat)
  unfolding walk_path again
  chdir_parts fuel s c none = none
  chdir_parts fuel s c (some none) = some (refused pat_len_exceed, s)
  chdir_parts fuel s c (some (some parts)) = again fuel s >>= (λ l.
      let dot = again fuel l.state >>= (λ l'. some (listing (whole_list l'.state), l'.state)) in
      if same_text c (46 ∷ []) then dot else walk_path fuel parts l)

  pub chdir_fat32 : (fuel : ℕ) → Fat → (c : List ℕ) → Option (Answer × Fat)
  unfolding chdir_parts
  chdir_fat32 fuel s c = chdir_parts fuel s c (split_path c)

  pub root_fat32 : (fuel : ℕ) → Fat → (lba drive cluster_no : ℕ) → Option (Answer × Fat)
  unfolding chdir_fat32
  root_fat32 fuel s lba drive cluster_no =
      chdir_fat32 fuel
        (record s { current_lba = lba; current_drive = drive; current_cluster = cluster_no })
        (47 ∷ [])
