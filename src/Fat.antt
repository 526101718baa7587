-- ===== src/Fat.antt =====
-- src/fs/vfat_module/fat32.c and its fat32.h: the FAT32 driver. Sectors are read by a call of
-- `read_disk_sector`, here the argument `read`; words and return codes are words of 32 bits.
pub mod Names
pub mod Cluster
pub mod Files
pub mod Listing
pub mod Copying
pub mod Loading
pub mod Finding
pub mod LongNames
pub mod Pathname
mod Tests
use janus.Base.{
  ℕ, zero, suc, ◌+◌, ◌-◌, ◌*◌, ◌/◌, ◌%◌, ◌^◌, Bool, true, false, ◌&&◌, Option, none, some, List, [],
  ◌∷◌, ◌++◌, ◌==◌, if◌then◌else◌, leb, bit_and,
}
use janus.Base.Int.{ℤ}
use janus.Memory.{Mem}
use janus.Memory.Read.{le}
use janus.Disk.{is_io_error}

-- `struct fat_file_properties` without its link.
pub record FileProps : Type 0 where
  pub st_clust : ℕ
  pub size : ℕ
  pub file_type : ℕ
  pub filename : List ℕ

-- The globals. The list from `fat_file_prop` on is `files` and then `last`, the node that
-- `fat_temp` points at while a directory is read and that is filled next.
pub record Fat : Type 0 where
  pub fat_begin_lba : ℕ
  pub cluster_begin_lba : ℕ
  pub sectors_per_cluster : ℕ
  pub root_dir_first_cluster : ℕ
  pub current_drive : ℕ
  pub current_lba : ℕ
  pub current_cluster : ℕ
  pub item_count : ℕ
  pub files : List FileProps
  pub last : FileProps

-- SUCCESS, DISK_READ_ERR and BAD_FAT_BOOT_SECTOR.
abbrev pub success : ℕ
success = 1

abbrev pub disk_read_err : ℕ
disk_read_err = 2 ^ 32 - 8

abbrev pub bad_fat_boot_sector : ℕ
bad_fat_boot_sector = 2 ^ 32 - 11

-- `error`: a code from NO_SUCH_PART, -15, to FIL_NOT_FOUND, -5.
abbrev pub is_error_code : ℕ → Bool
is_error_code c = leb (2 ^ 32 - 15) c && leb c (2 ^ 32 - 5)

-- CLUSTER_TO_LBA
pub cluster_to_lba : Fat → (e : ℕ) → ℕ
cluster_to_lba s e = ((e + 2 ^ 32 - 2) * s.sectors_per_cluster + s.cluster_begin_lba) % 2 ^ 32

-- The first sector of a cluster and `k` sectors on.
unfoldable pub sector_of : Fat → (lba cluster k : ℕ) → ℕ
unfolding cluster_to_lba
sector_of s lba cluster k = (lba + cluster_to_lba s cluster + k) % 2 ^ 32

module _ (read : (drive lba : ℕ) → ℤ × Mem) where
  -- The entry of a cluster, 0 for FAT_EOF_MARKER. CLU_PER_FAT is 128.
  unfoldable pub fat32_rd_fat : Fat → (drive cluster : ℕ) → ℕ
  fat32_rd_fat s drive cluster =
      let (code, entry) = read drive ((s.fat_begin_lba + cluster / 128) % 2 ^ 32) in
      let next = le 4 entry (4 * (cluster % 128)) in
      if is_io_error code then disk_read_err else if next == 0x0fffffff then 0 else next

  -- The fields of the boot sector by their offsets.
  unfoldable pub fat32_rd_bootsec : Fat → (drive lba : ℕ) → ℕ × Fat
  fat32_rd_bootsec s drive lba =
      let (code, boot) = read drive lba in
      let num_boot_sectors = le 2 boot 14 in
      let read_in : Fat = record s {
        fat_begin_lba = (lba + num_boot_sectors) % 2 ^ 32;
        cluster_begin_lba = (num_boot_sectors + boot 16 * le 4 boot 36) % 2 ^ 32;
        root_dir_first_cluster = le 4 boot 44;
        sectors_per_cluster = boot 13;
      } in
      if is_io_error code
      then (disk_read_err, s)
      else if le 2 boot 510 == 0xaa55
      then (success, read_in)
      else (bad_fat_boot_sector, s)
