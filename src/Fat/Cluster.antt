-- ===== src/Fat/Cluster.antt =====
-- `fat32_rd_cluster` of fat32.c: the entries of a directory.
use janus.Base.{
  ℕ, zero, suc, ◌+◌, ◌-◌, ◌*◌, ◌%◌, ◌^◌, Bool, not, ◌&&◌, ◌||◌, Option, none, some, [], ◌==◌,
  if◌then◌else◌, bit_and, ◌>>=◌,
}
use janus.Base.Int.{ℤ}
use janus.Memory.{Mem}
use janus.Memory.Read.{le}
use janus.Disk.{is_io_error}
use janus.Fat.{FileProps, Fat, sector_of, fat32_rd_fat, is_error_code, success, disk_read_err}
use janus.Fat.Names.{short_name, push, generate_long_name}

-- DIRECTORY, REG_FILE, or the attributes themselves.
abbrev pub type_of : (attrib : ℕ) → ℕ
type_of a =
    if not (bit_and a 0x10 == 0) || not (bit_and a 0x08 == 0)
    then 2
    else if not (bit_and a 0x27 == 0)
    then 1
    else a

-- The start cluster of a directory entry at `p`; a directory at 0 is the root's, 2.
abbrev pub start_cluster : Mem → (p : ℕ) → ℕ
start_cluster buf p =
    let c = le 2 buf (p + 20) * 2 ^ 16 + le 2 buf (p + 26) in
    if (c == 0) && (buf (p + 11) == 0x10) then 2 else c

-- The fields of the node `fat_temp` but its name.
unfoldable pub fill : Fat → Mem → (p : ℕ) → Fat
fill s buf p = record s {
  last = record s.last {
    file_type = type_of (buf (p + 11));
    st_clust = start_cluster buf p;
    size = le 4 buf (p + 28);
  };
}

-- The entry is in use: its name does not begin with 0, 0xE5 or a space.
abbrev pub in_use : Mem → (p : ℕ) → Bool
in_use buf p = not (buf p == 0) && (not (buf p == 0xe5) && not (buf p == 0x20))

unfoldable pub short_entry : Fat → Mem → (p : ℕ) → (fresh : FileProps) → Fat
short_entry s buf p fresh = if in_use buf p then push s (short_name buf p) fresh else s

-- How far the reading of a directory is: out of fuel, left with an error code, or behind an entry
-- with the attributes `prev` of the last one in use and the buffer.
pub data Progress : Type 0 where
  no_fuel : Progress
  failed : (code : ℕ) → Fat → Progress
  going : (prev : ℕ) → Mem → Fat → Progress

-- `prev = fat32dir->attrib`, from the buffer as it is then.
unfoldable pub note_prev : (p : ℕ) → Progress → Progress
note_prev p no_fuel = no_fuel
note_prev p (failed c s) = failed c s
note_prev p (going prev buf s) = going (if in_use buf p then buf (p + 11) else prev) buf s

module _ (read : (drive lba : ℕ) → ℤ × Mem) (drive lba cluster : ℕ) (fresh : FileProps)
    (fuel : ℕ) where
  -- Behind the entries of a long name. For the first entry of a sector the buffer gets the sector
  -- before, and the call passes that there are 16 entries.
  named : Option (Mem × Fat) → Progress
  named none = no_fuel
  named (some (buf, s)) = going 0 buf s

  named_first : (k : ℕ) → Option (Mem × Fat) → Progress
  named_first k none = no_fuel
  named_first k (some (buf, s)) =
      let (code, buf') = read drive (sector_of s lba cluster k) in
      if is_io_error code then failed disk_read_err s else going 0 buf' s

  pub long_entry : Fat → Mem → (i k : ℕ) → Progress
  unfolding named named_first
  long_entry s buf i k =
      let (code, before) = read drive (sector_of s lba cluster ((k + 2 ^ 32 - 1) % 2 ^ 32)) in
      if i == 0
      then if is_io_error code
        then failed disk_read_err s
        else named_first k (generate_long_name read drive lba cluster fresh s fuel before 16 k)
      else named (generate_long_name read drive lba cluster fresh s fuel buf i k)

  -- The body of the inner loop for the entry `i` of sector `k`. 0x0F are the attributes of a long
  -- name's entries, 0x08 those of the volume's name.
  unfoldable pub read_entry : (k i prev : ℕ) → Mem → Fat → Progress
  unfolding note_prev long_entry
  read_entry k i prev buf s =
      let p = i * 32 in
      let filled = fill s buf p in
      let entered =
        if prev == 0x0f
        then long_entry filled buf i k
        else going prev buf (short_entry filled buf p fresh) in
      note_prev p
        (if (buf (p + 11) == 0x0f) || (buf (p + 11) == 0x08) then going prev buf s else entered)

  -- `n` entries from entry `i` on.
  unfoldable pub read_entries : (n k i : ℕ) → Progress → Progress
  unfolding read_entry
  read_entries zero k i pr = pr
  read_entries (suc n) k i no_fuel = no_fuel
  read_entries (suc n) k i (failed c s) = failed c s
  read_entries (suc n) k i (going prev buf s) = read_entries n k (i + 1) (read_entry k i prev buf s)

  -- `n` sectors from sector `k` on.
  unfoldable pub read_sectors : (n k : ℕ) → Progress → Progress
  unfolding read_entries
  read_sectors zero k pr = pr
  read_sectors (suc n) k no_fuel = no_fuel
  read_sectors (suc n) k (failed c s) = failed c s
  read_sectors (suc n) k (going prev buf s) =
      let (code, buf') = read drive (sector_of s lba cluster k) in
      read_sectors n (k + 1) (
        if is_io_error code
        then failed disk_read_err s
        else read_entries 16 k 0 (going prev buf' s))

-- `strcpy(fat_temp->filename, "")`
abbrev pub end_list : Fat → Fat
end_list s = record s { last = record s.last { filename = [] } }

module _ (read : (drive lba : ℕ) → ℤ × Mem) (fresh : FileProps) (uninit : Mem) where
  -- Behind the sectors: the chain goes on with the next cluster, whose result is dropped.
  unfoldable pub chained : (next : ℕ) → Fat → Option (ℕ × Fat) → Option (ℕ × Fat)
  chained next s rest =
      if is_error_code next
      then some (next, s)
      else if next == 0
      then some (success, end_list s)
      else rest >>= (λ r. some (success, end_list r.1))

  unfoldable pub finish_cluster :
      (again : Fat → ℕ → Option (ℕ × Fat)) → (drive cluster : ℕ) → Progress → Option (ℕ × Fat)
  unfolding chained
  finish_cluster again drive cluster no_fuel = none
  finish_cluster again drive cluster (failed c s) = some (c, s)
  finish_cluster again drive cluster (going prev buf s) =
      let next = fat32_rd_fat read s drive cluster in chained next s (again s next)

  -- The code returned and the state; `none` is that the fuel ran out, as on a cycle of clusters.
  -- `uninit` is what the buffer holds at first.
  unfoldable pub fat32_rd_cluster : (fuel : ℕ) → Fat → (drive lba cluster : ℕ) → Option (ℕ × Fat)
  unfolding finish_cluster
  fat32_rd_cluster zero s drive lba cluster = none
  fat32_rd_cluster (suc fuel) s drive lba cluster =
      finish_cluster (λ s' next. fat32_rd_cluster fuel s' drive lba next) drive cluster
        (read_sectors read drive lba cluster fresh fuel s.sectors_per_cluster 0 (going 0 uninit s))
