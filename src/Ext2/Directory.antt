-- ===== src/Ext2/Directory.antt =====
-- `ext2_rd_dir` of src/fs/ext2/dir.c and `ext2_rd_inode` of src/fs/ext2/ext2.c: reading a directory.
use janus.Base.{
  ℕ, zero, suc, ◌+◌, ◌-◌, ◌*◌, ◌/◌, ◌%◌, ◌^◌, Bool, List, [], ◌∷◌, ◌++◌, ◌==◌, if◌then◌else◌, leb,
  ltb, length, ◌&&◌, not, bit_and,
}
use janus.Base.Int.{ℤ, pos, negsuc}
use janus.Memory.{Mem}
use janus.Memory.Read.{le}
use janus.Ext2.{FileProperties, Ext2, inodes_per_group, inode_to_lba, get_index, ext2_rd_block}

-- A space of a name gets a backslash before it.
abbrev pub escaped : (c : ℕ) → List ℕ
escaped c = if c == 32 then 92 ∷ 32 ∷ [] else c ∷ []

unfoldable pub name_chars : (n : ℕ) → Mem → (p : ℕ) → List ℕ
name_chars zero buf p = []
name_chars (suc n) buf p = escaped (buf p) ++ name_chars n buf (p + 1)

-- The string in an array that a NUL is written behind.
pub before_nul : List ℕ → List ℕ
before_nul [] = []
before_nul (c ∷ cs) = let rest = before_nul cs in if c == 0 then [] else c ∷ rest

-- `filename` for the directory entry at `p`.
unfoldable pub entry_name : Mem → (p : ℕ) → List ℕ
unfolding name_chars before_nul
entry_name buf p = before_nul (name_chars (buf (p + 6)) buf (p + 8))

abbrev pub rec_len : Mem → (p : ℕ) → ℕ
rec_len buf p = le 2 buf (p + 4)

-- `ext2_temp` moves on to a fresh node.
unfoldable pub next_node : Ext2 → (fresh : FileProperties) → Ext2
next_node s fresh = record s {
  files = s.files ++ s.last ∷ [];
  last = fresh;
  item_index = (s.item_index + 1) % 2 ^ 32;
}

-- The bytes of `dirbuf`.
abbrev pub dirbuf_size : ℕ
dirbuf_size = 4096

-- The bytes of `filename` in a node.
abbrev pub filename_size : ℕ
filename_size = 255

-- The name of the entry at `p` stands within `dirbuf` and fits into `filename` with its NUL, and the
-- inodes per group, by which its inode is divided, are not 0.
abbrev pub can_list : Ext2 → Mem → (p : ℕ) → Bool
can_list s buf p =
    leb (p + 8 + buf (p + 6)) dirbuf_size
    && ltb (length (name_chars (buf (p + 6)) buf (p + 8))) filename_size
    && not (inodes_per_group s == 0)

-- How the reading of a directory ends: without fuel, at a fault, which is an access outside
-- `intab1`, `dirbuf` or `filename` or a division by 0, or in a state.
pub data Walk : Type 0 where
  no_fuel : Walk
  fault : Walk
  walked : Ext2 → Walk

-- i_block[k] of the inode at `at`.
abbrev pub i_block : Mem → (at k : ℕ) → ℕ
i_block intab at k = le 4 intab (at + 40 + 4 * k)

-- S_ISDIR and S_ISREG
abbrev pub is_dir : (i_mode : ℕ) → Bool
is_dir m = bit_and m 0xf000 == 0x4000

abbrev pub is_reg : (i_mode : ℕ) → Bool
is_reg m = bit_and m 0xf000 == 0x8000

unfoldable pub and_then : Walk → (Ext2 → Walk) → Walk
and_then no_fuel f = no_fuel
and_then fault f = fault
and_then (walked s) f = f s

module _ (read : (drive lba sectors : ℕ) → ℤ × Mem) (fresh : FileProperties) where
  -- The node for the entry at `p`, whose inode has the index `isam`.
  unfoldable pub fill_node : Ext2 → (drive lba : ℕ) → Mem → (p : ℕ) → (isam : ℤ) → Walk
  fill_node s drive lba buf p (negsuc n) = fault
  fill_node s drive lba buf p (pos isam) =
      let (indbuf, s') =
        ext2_rd_block read s drive ((lba + inode_to_lba s (le 4 buf p)) % 2 ^ 32) 1 in
      walked (record s' {
        last = record {
          inode = le 4 buf p;
          size = le 4 indbuf (isam * 128 + 4);
          file_type = buf (p + 7);
          filename = entry_name buf p;
        };
      })

  -- Behind an entry: the last of a block leaves the loop with `ext2_temp` where it is.
  unfoldable pub after_entry : (again : (p : ℕ) → Ext2 → Walk) → Mem → (p : ℕ) → Walk → Walk
  after_entry again buf p no_fuel = no_fuel
  after_entry again buf p fault = fault
  after_entry again buf p (walked s) =
      let rest = again (p + rec_len buf p) (next_node s fresh) in
      if leb s.bs (rec_len buf p + p)
      then walked s
      else if rec_len buf p == 0
      then walked (next_node s fresh)
      else rest

  -- The do loop over the entries of a block, from the one at `p` on.
  unfoldable pub list_block : (fuel : ℕ) → (drive lba : ℕ) → Mem → (p : ℕ) → Ext2 → Walk
  list_block zero drive lba buf p s = no_fuel
  list_block (suc fuel) drive lba buf p s =
      after_entry (list_block fuel drive lba buf) buf p
        (if can_list s buf p then fill_node s drive lba buf p (get_index s (le 4 buf p)) else fault)

  -- One direct block, which is read into `dirbuf` whatever its size. An entry behind another begins
  -- later in the block, so fuel for its bytes is enough.
  unfoldable pub rd_dir_block : (drive lba block : ℕ) → Ext2 → Walk
  rd_dir_block drive lba block s =
      let (dirbuf, s') =
        ext2_rd_block read s drive ((lba + s.bs / 512 * block + 2 ^ 32 - 2) % 2 ^ 32)
          (s.bs / 512) in
      let listed = list_block (suc s.bs) drive lba dirbuf 0 s' in
      if block == 0 then walked s else if leb s.bs dirbuf_size then listed else fault

  -- `n` blocks from block `k` of the inode on.
  unfoldable pub rd_dir_blocks : (n k : ℕ) → (drive lba : ℕ) → Mem → (at : ℕ) → Ext2 → Walk
  unfolding and_then
  rd_dir_blocks zero k drive lba intab at s = walked s
  rd_dir_blocks (suc n) k drive lba intab at s =
      and_then (rd_dir_block drive lba (i_block intab at k) s)
        (rd_dir_blocks n (k + 1) drive lba intab at)

  unfoldable pub ext2_rd_dir : (drive lba : ℕ) → Mem → (at : ℕ) → Ext2 → Walk
  ext2_rd_dir drive lba intab at s =
      rd_dir_blocks 12 0 drive lba intab at (record s { item_index = 0 })

  rd_inode_at : (drive lba inode : ℕ) → (index : ℤ) → Ext2 → Walk
  rd_inode_at drive lba inode (negsuc n) s = fault
  rd_inode_at drive lba inode (pos i) s =
      let (inodebuff, s') = ext2_rd_block read s drive ((lba + inode_to_lba s inode) % 2 ^ 32) 1 in
      if inodes_per_group s == 0
      then fault
      else if is_dir (le 2 inodebuff (i * 128))
      then ext2_rd_dir drive lba inodebuff (i * 128) s'
      else walked s'

  unfoldable pub ext2_rd_inode : (drive lba inode : ℕ) → Ext2 → Walk
  unfolding rd_inode_at
  ext2_rd_inode drive lba inode s =
      let (descr, s') = ext2_rd_block read s drive ((lba + s.gdoffset) % 2 ^ 32) 2 in
      let grouped : Ext2 = record s' { groupdescr = descr } in
      rd_inode_at drive lba inode (get_index grouped inode) grouped
