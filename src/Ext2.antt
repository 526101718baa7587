-- ===== src/Ext2.antt =====
-- src/fs/ext2/superblock.c, ext2.c and dir.c with their headers: the ext2 driver. Sectors are read
-- by a call of `read_disk_sector`, here the argument `read`; words and codes are words of 32 bits.
pub mod Directory
pub mod Data
pub mod Files
pub mod Inodes
pub mod Ending
pub mod Listing
pub mod Reading
mod Tests
use janus.Base.{
  ℕ, zero, suc, ◌+◌, ◌-◌, ◌*◌, ◌/◌, ◌%◌, ◌^◌, Bool, true, false, ◌&&◌, ◌||◌, List, [], ◌∷◌, ◌++◌,
  ◌==◌, if◌then◌else◌,
}
use janus.Base.Int.{ℤ, pos, negsuc}
use janus.Memory.{Mem}
use janus.Memory.Read.{le}
use janus.Disk.{is_io_error}

-- `struct file_properties` without its link.
pub record FileProperties : Type 0 where
  pub inode : ℕ
  pub size : ℕ
  pub file_type : ℕ
  pub filename : List ℕ

-- The globals: the superblock in memory, `gbinfo`, the group descriptors that `grblock` points
-- at, and the codes that `shell_panic` was called with. The list from `ext2_file_prop` on is `files` and
-- then `last`, the node that `ext2_temp` points at while a directory is read.
pub record Ext2 : Type 0 where
  pub super_buf : Mem
  pub bs : ℕ
  pub gdoffset : ℕ
  pub groupdescr : Mem
  pub current_drive : ℕ
  pub current_lba : ℕ
  pub current_inode : ℕ
  pub item_index : ℕ
  pub files : List FileProperties
  pub last : FileProperties
  pub panics : List ℕ

-- DISK_READ_ERR and BAD_SUPER.
abbrev pub disk_read_err : ℕ
disk_read_err = 2 ^ 32 - 8

abbrev pub bad_super : ℕ
bad_super = 2 ^ 32 - 12

abbrev pub shell_panic : Ext2 → (code : ℕ) → Ext2
shell_panic s code = record s { panics = s.panics ++ code ∷ [] }

-- Fields of the superblock and of the first group descriptor, by their offsets.
abbrev pub blocks_per_group : Ext2 → ℕ
blocks_per_group s = le 4 s.super_buf 32

abbrev pub inodes_per_group : Ext2 → ℕ
inodes_per_group s = le 4 s.super_buf 40

abbrev pub inode_table : Ext2 → ℕ
inode_table s = le 4 s.groupdescr 8

-- The groups with a copy of the superblock, as far as the code lists them.
abbrev pub has_super : (group : ℕ) → Bool
has_super g =
    (g == 0)
    || (g == 1)
    || (g == 3)
    || (g == 9)
    || (g == 27)
    || (g == 5)
    || (g == 25)
    || (g == 7)
    || (g == 49)
    || (g == 81)
    || (g == 125)
    || (g == 243)
    || (g == 343)
    || (g == 625)

-- The sector of an inode, from the partition's start less 2.
unfoldable pub inode_to_lba : Ext2 → (inode : ℕ) → ℕ
inode_to_lba s inode =
    let j = inode % inodes_per_group s in
    let group = inode / inodes_per_group s in
    let small_size = s.bs / 128 in
    let first = group * blocks_per_group s * small_size + (j + 2 ^ 32 - 1) in
    let listed = (first + inode_table s * small_size) % 2 ^ 32 / 4 in
    let other = (first + 2 * small_size) % 2 ^ 32 / 4 in
    let sector =
      if has_super group then listed else if s.bs == 1024 then (other + 2) % 2 ^ 32 else other in
    (sector + 2 ^ 32 - 2) % 2 ^ 32

-- The place of an inode in its sector; `%` of C gives -1 for -1.
unfoldable pub get_index : Ext2 → (inode : ℕ) → ℤ
get_index s inode =
    let i = inode % inodes_per_group s in if i == 0 then negsuc 0 else pos ((i - 1) % 4)

module _ (read : (drive lba sectors : ℕ) → ℤ × Mem) where
  -- SUPER_BLOCK_OFFSET is 2. An error is printed, and the buffer used all the same.
  unfoldable pub ext2_rd_block : Ext2 → (drive lba sectors : ℕ) → Mem × Ext2
  ext2_rd_block s drive lba sectors =
      let (code, buf) = read drive ((lba + 2) % 2 ^ 32) sectors in
      if is_io_error code then (buf, shell_panic s disk_read_err) else (buf, s)

  -- SUCCESS, 1, or FAILURE, 0. A shift by 32 and more is undefined.
  pub ext2_rd_superblock : Ext2 → (drive lba : ℕ) → ℕ × Ext2
  ext2_rd_superblock s drive lba =
      let (code, buf) = read drive ((lba + 2) % 2 ^ 32) 2 in
      let read_in : Ext2 = record (if is_io_error code then shell_panic s disk_read_err else s) {
        super_buf = buf;
      } in
      let bs = 1024 * 2 ^ le 4 buf 24 % 2 ^ 32 in
      if le 2 buf 56 == 0xef53
      then (1, record read_in { bs = bs; gdoffset = if bs == 4096 then 6 else 2 })
      else (0, shell_panic read_in bad_super)
