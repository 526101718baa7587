-- ===== src/Ext2/Listing.antt =====
-- What `ext2_rd_dir` of src/fs/ext2/dir.c lists of the blocks of a directory.
use janus.Base.{
  ℕ, zero, suc, ◌+◌, ◌-◌, ◌*◌, ◌/◌, ◌%◌, ◌^◌, ◌≤◌, ◌<◌, ◌≡◌, ◌≢◌, refl, sym, ◌∙◌, ap, true, false,
  List, [], ◌∷◌, ◌++◌, ◌==◌, leb, length, map, append_assoc, append-nil, arith,
}
use janus.Base.Int.{ℤ}
use janus.Memory.{Mem}
use janus.Memory.Read.{le}
use janus.Disk.{is_io_error}
use janus.Ext2.{FileProperties, Ext2, inode_to_lba, get_index, ext2_rd_block, inodes_per_group}
use janus.Ext2.Directory.{
  walked, rec_len, entry_name, next_node, i_block, fill_node, after_entry, list_block, dirbuf_size,
  filename_size, name_chars, can_list, rd_dir_block, rd_dir_blocks, ext2_rd_dir,
}

-- An entry with its name is within `dirbuf`, the name fits into `filename`, there are inodes in a
-- group, and the entry's is not the last of its group.
abbrev EntryFits : (s : Ext2) → Mem → (p : ℕ) → Type 0
EntryFits s buf p =
    (le 4 buf p % inodes_per_group s ≢ 0)
    × (inodes_per_group s ≢ 0)
    × (p + 8 + buf (p + 6) ≤ dirbuf_size)
    × (length (name_chars (buf (p + 6)) buf (p + 8)) < filename_size)

-- The entry at `p` and those that follow it in a block, at `qs`: each but the last leads to the
-- next, and the last reaches the end of the block.
abbrev pub Records : (s : Ext2) → Mem → (p : ℕ) → List ℕ → Type 0
Records s buf p [] = EntryFits s buf p × (s.bs ≤ rec_len buf p + p)
Records s buf p (q ∷ qs) =
    EntryFits s buf p × (p < q) × (rec_len buf p + p ≡ q) × (q < s.bs) × Records s buf q qs

module _ (read : (drive lba sectors : ℕ) → ℤ × Mem) (fresh : FileProperties) (drive lba : ℕ) where
  -- The drive reads without errors.
  abbrev pub Reads : Type 0
  Reads = (x n : ℕ) → is_io_error (read drive x n).0 ≡ false

  -- The node of the entry at `p`, with its size from the inode's sector.
  abbrev pub node_of : Ext2 → Mem → (p : ℕ) → FileProperties
  node_of s buf p =
      let inode = le 4 buf p in
      let sector = read drive (((lba + inode_to_lba s inode) % 2 ^ 32 + 2) % 2 ^ 32) 1 in
      record {
        inode = inode;
        size = le 4 sector.1 ((inode % inodes_per_group s - 1) % 4 * 128 + 4);
        file_type = buf (p + 7);
        filename = entry_name buf p;
      }

  fill_node_lem :
      (s : Ext2) (buf : Mem) (p : ℕ)
      → Reads
      → le 4 buf p % inodes_per_group s ≢ 0
      → fill_node read fresh s drive lba buf p (get_index s (le 4 buf p))
        ≡ walked (record s { last = node_of s buf p })
  unfolding fill_node get_index ext2_rd_block
  fill_node_lem s buf p good ne =
      let e : (le 4 buf p % inodes_per_group s == 0) ≡ false = ground (arith, ne) in
      rw (e, good (((lba + inode_to_lba s (le 4 buf p)) % 2 ^ 32 + 2) % 2 ^ 32) 1) refl

  -- The entries of a block that the list gets, and the one that stays in the node `last`.
  abbrev pub before_last : Ext2 → Mem → (p : ℕ) → List ℕ → List FileProperties
  before_last s buf p [] = []
  before_last s buf p (q ∷ qs) = node_of s buf p ∷ before_last s buf q qs

  abbrev pub last_node : Ext2 → Mem → (p : ℕ) → List ℕ → FileProperties
  last_node s buf p [] = node_of s buf p
  last_node s buf p (q ∷ qs) = last_node s buf q qs

  -- The count of items, which wraps.
  abbrev pub count_of : (n : ℕ) → List ℕ → ℕ
  count_of n [] = n
  count_of n (q ∷ qs) = count_of ((n + 1) % 2 ^ 32) qs

  abbrev pub listed : Ext2 → Mem → (p : ℕ) → List ℕ → Ext2
  listed s buf p qs = record s {
    files = s.files ++ before_last s buf p qs;
    last = last_node s buf p qs;
    item_index = count_of s.item_index qs;
  }

  list_block_lem :
      (fuel : ℕ) (s : Ext2) (buf : Mem) (p : ℕ) (qs : List ℕ)
      → Reads
      → Records s buf p qs
      → s.bs < p + fuel
      → p < s.bs
      → list_block read fresh fuel drive lba buf p s ≡ walked (listed s buf p qs)
  unfolding list_block after_entry next_node inode_to_lba
  list_block_lem zero s buf p qs good r f b = absurd (omega (arith, f, b))
  list_block_lem (suc fuel) s buf p [] good ((ne, some_inodes, within, named), end) f b =
      let i : can_list s buf p ≡ true = ground arith in
      let e : leb s.bs (rec_len buf p + p) ≡ true = ground arith in
      rw (i, fill_node_lem s buf p good ne, e)
        (ap (λ fs. walked (record s { files = fs; last = node_of s buf p }))
          (sym (append-nil s.files)))
  list_block_lem (suc fuel) s buf p (q ∷ qs) good
        ((ne, some_inodes, within, named), lt, at, inside, r) f b =
      let i : can_list s buf p ≡ true = ground arith in
      let e : leb s.bs (rec_len buf p + p) ≡ false = ground arith in
      let z : (rec_len buf p == 0) ≡ false = ground arith in
      let s1 : Ext2 = next_node (record s { last = node_of s buf p }) fresh in
      let at' : p + rec_len buf p ≡ q = omega (arith, at) in
      rw (i, fill_node_lem s buf p good ne, e, z)
        (ap (λ x. list_block read fresh fuel drive lba buf x s1) at'
          ∙ list_block_lem fuel s1 buf q qs good r (omega (arith, f, lt)) inside
          ∙ ap (λ fs. walked (record (listed s buf p (q ∷ qs)) { files = fs }))
              (append_assoc s.files (node_of s buf p ∷ []) (before_last s buf q qs)))

  -- The bytes of a block.
  abbrev pub block_bytes : Ext2 → (block : ℕ) → Mem
  block_bytes s block =
      (read drive (((lba + s.bs / 512 * block + 2 ^ 32 - 2) % 2 ^ 32 + 2) % 2 ^ 32) (s.bs / 512)).1

  rd_dir_block_lem :
      (s : Ext2) (block : ℕ) (qs : List ℕ)
      → Reads
      → block ≢ 0
      → 0 < s.bs
      → s.bs ≤ dirbuf_size
      → Records s (block_bytes s block) 0 qs
      → rd_dir_block read fresh drive lba block s ≡ walked (listed s (block_bytes s block) 0 qs)
  unfolding rd_dir_block ext2_rd_block
  rd_dir_block_lem s block qs good ne b fits r =
      let e : (block == 0) ≡ false = ground (arith, ne) in
      let f : leb s.bs dirbuf_size ≡ true = ground arith in
      rw (e, f, good (((lba + s.bs / 512 * block + 2 ^ 32 - 2) % 2 ^ 32 + 2) % 2 ^ 32) (s.bs / 512))
        (list_block_lem (suc s.bs) s (block_bytes s block) 0 qs good r (omega arith) b)

  rd_dir_blocks_none :
      (n k : ℕ) (intab : Mem) (at : ℕ) (s : Ext2)
      → ((j : ℕ) → k ≤ j → j < k + n → i_block intab at j ≡ 0)
      → rd_dir_blocks read fresh n k drive lba intab at s ≡ walked s
  unfolding rd_dir_blocks rd_dir_block
  rd_dir_blocks_none zero k intab at s none = refl
  rd_dir_blocks_none (suc n) k intab at s none =
      let e : (i_block intab at k == 0) ≡ true =
        ground (arith, none k (omega arith) (omega arith)) in
      rw e (
        rd_dir_blocks_none n (k + 1) intab at s
          (λ j h l. none j (omega (arith, h)) (omega (arith, l))))

  whole_list :
      (s : Ext2) (buf : Mem) (p : ℕ) (qs : List ℕ)
      → before_last s buf p qs ++ last_node s buf p qs ∷ [] ≡ map (node_of s buf) (p ∷ qs)
  whole_list s buf p [] = refl
  whole_list s buf p (q ∷ qs) = ap (λ l. node_of s buf p ∷ l) (whole_list s buf q qs)

  -- On a drive that reads without errors, with blocks of 1 to 4096 bytes, `ext2_rd_dir` lists a
  -- directory of one block whose entries follow one another to the end of the block, each with its
  -- name within the 4096 bytes of `dirbuf`, and with its backslashes of at most 254 characters, and
  -- none with an inode whose number is a multiple of the inodes per group, which are not 0: behind the files there were comes a node for each entry of the block, in
  -- their order.
  pub ext2_rd_dir_one :
      (s : Ext2) (intab : Mem) (at : ℕ) (qs : List ℕ)
      → Reads
      → i_block intab at 0 ≢ 0
      → ((j : ℕ) → 1 ≤ j → j < 12 → i_block intab at j ≡ 0)
      → 0 < s.bs
      → s.bs ≤ dirbuf_size
      → Records s (block_bytes s (i_block intab at 0)) 0 qs
      → (s' : Ext2) × (ext2_rd_dir read fresh drive lba intab at s ≡ walked s')
        × (s'.files ++ s'.last ∷ []
            ≡ s.files ++ map (node_of s (block_bytes s (i_block intab at 0))) (0 ∷ qs))
  unfolding ext2_rd_dir rd_dir_blocks inode_to_lba
  ext2_rd_dir_one s intab at qs good ne none b fits r =
      let buf = block_bytes s (i_block intab at 0) in
      let s0 : Ext2 = record s { item_index = 0 } in
      let s1 = listed s0 buf 0 qs in
      let one = rd_dir_block_lem s0 (i_block intab at 0) qs good ne b fits r in
      let tail = rd_dir_blocks_none 11 1 intab at s1 none in
      (
        s1,
        rw one tail,
        append_assoc s.files (before_last s buf 0 qs) (last_node s buf 0 qs ∷ [])
            ∙ ap (λ l. s.files ++ l) (whole_list s buf 0 qs),
      )

  -- Behind the last entry of a block `ext2_temp` does not move on, so that the first entry of the
  -- next block overwrites it: on a drive that reads without errors, with blocks of 1 to 4096 bytes,
  -- the list of a directory of two blocks has all entries but the last of the first block. In both
  -- blocks the entries follow one another to the end of the block, each has its name within the
  -- 4096 bytes of `dirbuf`, and with its backslashes of at most 254 characters, and none has an inode
  -- whose number is a multiple of the inodes per group, which are not 0.
  pub ext2_rd_dir_two :
      (s : Ext2) (intab : Mem) (at : ℕ) (qs rs : List ℕ)
      → Reads
      → i_block intab at 0 ≢ 0
      → i_block intab at 1 ≢ 0
      → ((j : ℕ) → 2 ≤ j → j < 12 → i_block intab at j ≡ 0)
      → 0 < s.bs
      → s.bs ≤ dirbuf_size
      → Records s (block_bytes s (i_block intab at 0)) 0 qs
      → Records s (block_bytes s (i_block intab at 1)) 0 rs
      → (s' : Ext2) × (ext2_rd_dir read fresh drive lba intab at s ≡ walked s')
        × (s'.files ++ s'.last ∷ []
            ≡ s.files
              ++ (before_last s (block_bytes s (i_block intab at 0)) 0 qs
                  ++ map (node_of s (block_bytes s (i_block intab at 1))) (0 ∷ rs)))
  unfolding ext2_rd_dir rd_dir_blocks inode_to_lba
  ext2_rd_dir_two s intab at qs rs good ne ne' none b fits r r' =
      let buf = block_bytes s (i_block intab at 0) in
      let buf' = block_bytes s (i_block intab at 1) in
      let s0 : Ext2 = record s { item_index = 0 } in
      let s1 = listed s0 buf 0 qs in
      let s2 = listed s1 buf' 0 rs in
      let one = rd_dir_block_lem s0 (i_block intab at 0) qs good ne b fits r in
      let two = rd_dir_block_lem s1 (i_block intab at 1) rs good ne' b fits r' in
      let tail = rd_dir_blocks_none 10 2 intab at s2 none in
      (
        s2,
        rw (one, two) tail,
        append_assoc (s.files ++ before_last s buf 0 qs) (before_last s buf' 0 rs)
              (last_node s buf' 0 rs ∷ [])
            ∙ append_assoc s.files (before_last s buf 0 qs)
                (before_last s buf' 0 rs ++ last_node s buf' 0 rs ∷ [])
            ∙ ap (λ l. s.files ++ (before_last s buf 0 qs ++ l)) (whole_list s buf' 0 rs),
      )
