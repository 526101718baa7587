-- ===== src/Ext2/Tests.antt =====
-- A small ext2 disk, and the theorems at it.
use janus.Base.{
  ℕ, ◌+◌, ◌*◌, ◌%◌, ◌<◌, ◌≤◌, ◌≡◌, ◌≢◌, refl, some, List, [], ◌∷◌, ◌++◌, ◌==◌, if◌then◌else◌,
  get_elem?, get_or, arith, ◌⊎◌,
}
use janus.Base.Int.{ℤ, pos}
use janus.Memory.{Mem}
use janus.Memory.Read.{le}
use janus.Ext2.{FileProperties, Ext2, inode_to_lba, get_index}
use janus.Ext2.Directory.{no_fuel, walked, name_chars, entry_name, ext2_rd_dir}
use janus.Ext2.Ending.{ext2_rd_dir-ends}
use janus.Ext2.Data.{ext2_rd_file}
use janus.Ext2.Inodes.{inode_to_lba_lem}
use janus.Ext2.Listing.{ext2_rd_dir_one, ext2_rd_dir_two}
use janus.Ext2.Reading.{bytes, ext2_rd_file_direct}

abbrev fresh : FileProperties
fresh = record { inode = 0; size = 0; file_type = 0; filename = [] }

-- Groups of 64 blocks and 16 inodes, with the table of the first at block 5; blocks of 1024 bytes.
abbrev state : Ext2
state = record {
  super_buf = λ a. if a == 40 then 16 else if a == 32 then 64 else 0;
  bs = 1024;
  gdoffset = 2;
  groupdescr = λ a. if a == 8 then 5 else 0;
  current_drive = 0;
  current_lba = 0;
  current_inode = 2;
  item_index = 0;
  files = [];
  last = fresh;
  panics = [];
}

-- The entries "." and "ab" of a block, and "c" of another.
abbrev entries : Mem
entries a =
    get_or
      (2 ∷ 0 ∷ 0 ∷ 0 ∷ 12 ∷ 0 ∷ 1 ∷ 2 ∷ 46 ∷ 0 ∷ 0 ∷ 0 ∷ 11 ∷ 0 ∷ 0 ∷ 0 ∷ 244 ∷ 3 ∷ 2 ∷ 1 ∷ 97 ∷ 98
        ∷ [])
      a 0

abbrev more_entries : Mem
more_entries a = get_or (12 ∷ 0 ∷ 0 ∷ 0 ∷ 0 ∷ 4 ∷ 1 ∷ 1 ∷ 99 ∷ []) a 0

-- Block 7 begins at sector 14, block 8 at sector 16.
abbrev disk : (drive lba sectors : ℕ) → ℤ × Mem
disk drive lba sectors =
    (pos 1, λ a. if lba == 14 then entries a else if lba == 16 then more_entries a else 0)

-- An inode with block 7, and one with the blocks 7 and 8.
abbrev one_block : Mem
one_block a = if a == 40 then 7 else 0

abbrev two_blocks : Mem
two_blocks a = if a == 40 then 7 else if a == 44 then 8 else 0

abbrev node : (inode file_type : ℕ) → List ℕ → FileProperties
node inode file_type name = record {
  inode = inode;
  size = 0;
  file_type = file_type;
  filename = name;
}

inode_to_lba_lem_example : (inode_to_lba state 21 + 2 ≡ 139) × (get_index state 21 ≡ pos 0)
unfolding le
inode_to_lba_lem_example =
    inode_to_lba_lem state 1 4 2 refl refl (omega arith) (omega arith) (omega arith)

ext2_rd_dir-ends_example : ext2_rd_dir disk fresh 0 0 two_blocks 0 state ≢ no_fuel
ext2_rd_dir-ends_example = ext2_rd_dir-ends disk fresh 0 0 two_blocks 0 state

ext2_rd_dir_one_example :
    (s' : Ext2) × (ext2_rd_dir disk fresh 0 0 one_block 0 state ≡ walked s')
    × (s'.files ++ s'.last ∷ [] ≡ node 2 2 (46 ∷ []) ∷ node 11 1 (97 ∷ 98 ∷ []) ∷ [])
unfolding le inode_to_lba entry_name name_chars
ext2_rd_dir_one_example =
    ext2_rd_dir_one disk fresh 0 0 state one_block 0 (12 ∷ []) (λ x n. refl) (λ e. omega (arith, e))
      (λ j h l. ground arith) (omega arith) (omega arith)
      (
        ((λ e. omega (arith, e)), (λ e. omega (arith, e)), omega arith, omega arith),
        omega arith,
        refl,
        omega arith,
        (((λ e. omega (arith, e)), (λ e. omega (arith, e)), omega arith, omega arith), omega arith),
      )

ext2_rd_dir_two_example :
    (s' : Ext2) × (ext2_rd_dir disk fresh 0 0 two_blocks 0 state ≡ walked s')
    × (s'.files ++ s'.last ∷ [] ≡ node 2 2 (46 ∷ []) ∷ node 12 1 (99 ∷ []) ∷ [])
unfolding le inode_to_lba entry_name name_chars
ext2_rd_dir_two_example =
    ext2_rd_dir_two disk fresh 0 0 state two_blocks 0 (12 ∷ []) [] (λ x n. refl)
      (λ e. omega (arith, e)) (λ e. omega (arith, e)) (λ j h l. ground arith) (omega arith)
      (omega arith)
      (
        ((λ e. omega (arith, e)), (λ e. omega (arith, e)), omega arith, omega arith),
        omega arith,
        refl,
        omega arith,
        (((λ e. omega (arith, e)), (λ e. omega (arith, e)), omega arith, omega arith), omega arith),
      )
      (((λ e. omega (arith, e)), (λ e. omega (arith, e)), omega arith, omega arith), omega arith)

ext2_rd_file_direct_example :
    let m' = (ext2_rd_file disk (λ a. 0) 0 0 two_blocks 0 (λ a. 0) 1000 state).memory in
    ((i a b : ℕ)
      → get_elem? (7 ∷ 8 ∷ []) i ≡ some b
      → a < 1024
      → m' (1000 + 4096 * i + a) ≡ bytes disk 0 state b a % 256)
    × ((a : ℕ) → (a < 1000) ⊎ (9192 ≤ a) → m' a ≡ 0)
unfolding le
ext2_rd_file_direct_example =
    ext2_rd_file_direct disk 0 (λ a. 0) 0 two_blocks 0 (λ a. 0) 1000 state (λ x n. refl) refl refl
      (omega arith)
