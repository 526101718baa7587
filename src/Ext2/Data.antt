-- ===== src/Ext2/Data.antt =====
-- `ext2_rd_file` and `ext2_load_file` of src/fs/ext2/dir.c: loading the data of an inode.
use janus.Base.{
  ℕ, zero, suc, ◌+◌, ◌-◌, ◌*◌, ◌/◌, ◌%◌, ◌^◌, Option, none, some, ◌==◌, if◌then◌else◌, ltb,
}
use janus.Base.Int.{ℤ, pos, negsuc}
use janus.Memory.{Mem}
use janus.Memory.Read.{le}
use janus.Ext2.{Ext2, inode_to_lba, get_index, ext2_rd_block}
use janus.Ext2.Directory.{i_block, is_reg}
use janus.Fat.Files.{copy_bytes}

-- A buffer behind a read of `n` sectors: the rest of it keeps what it held.
abbrev pub read_into : (n : ℕ) → (new old : Mem) → Mem
read_into n new old a = if ltb a (512 * n) then new a else old a

-- The loops of `ext2_rd_file`: the memory, `memloc`, `databuf` and the globals.
pub record Load : Type 0 where
  pub memory : Mem
  pub memloc : ℕ
  pub databuf : Mem
  pub state : Ext2

-- The loop over doubly indirect blocks has `*dind` and `indirect2buf` too.
pub record DoubleLoad : Type 0 where
  pub diblock : ℕ
  pub indirect2buf : Mem
  pub loading : Load

module _ (read : (drive lba sectors : ℕ) → ℤ × Mem) where
  -- A block of the partition, read from drive 0.
  unfoldable pub block_at : Ext2 → (lba block : ℕ) → Mem × Ext2
  block_at s lba block =
      ext2_rd_block read s 0 ((lba + s.bs / 512 * block + 2 ^ 32 - 2) % 2 ^ 32) (s.bs / 512)

  -- A block of data, of which 4096 bytes are copied.
  unfoldable pub load_block : (lba block : ℕ) → Load → Load
  load_block lba block l =
      let (new, s) = block_at l.state lba block in
      let databuf = read_into (l.state.bs / 512) new l.databuf in
      record {
        memory = copy_bytes 4096 0 l.memory databuf l.memloc;
        memloc = l.memloc + 4096;
        databuf = databuf;
        state = s;
      }

  -- `n` direct blocks from block `k` of the inode on.
  unfoldable pub load_direct : (n k : ℕ) → (lba : ℕ) → Mem → (at : ℕ) → Load → Load
  load_direct zero k lba intab at l = l
  load_direct (suc n) k lba intab at l =
      load_direct n (k + 1) lba intab at
        (if i_block intab at k == 0 then l else load_block lba (i_block intab at k) l)

  -- `n` entries of a block of addresses from entry `j` on.
  unfoldable pub load_indirect : (n j : ℕ) → (lba : ℕ) → (indirectbuf : Mem) → Load → Load
  load_indirect zero j lba indirectbuf l = l
  load_indirect (suc n) j lba indirectbuf l =
      load_indirect n (j + 1) lba indirectbuf (load_block lba (le 4 indirectbuf (j * 4)) l)

  unfoldable pub load_repeated : (n : ℕ) → (lba block : ℕ) → Load → Load
  load_repeated zero lba block l = l
  load_repeated (suc n) lba block l = load_repeated n lba block (load_block lba block l)

  -- As written: the block that `dind` points at is read for the addresses, and the block that
  -- `sind` points at once for each of them.
  unfoldable pub load_double :
      (n j : ℕ) → (lba indblocks : ℕ) → (indirectbuf : Mem) → DoubleLoad → DoubleLoad
  load_double zero j lba indblocks indirectbuf d = d
  load_double (suc n) j lba indblocks indirectbuf d =
      let (new, s) = block_at d.loading.state lba d.diblock in
      let indirect2buf = read_into (d.loading.state.bs / 512) new d.indirect2buf in
      load_double n (j + 1) lba indblocks indirectbuf (record {
        diblock = le 4 indirect2buf ((indblocks - 1) * 4);
        indirect2buf = indirect2buf;
        loading =
            load_repeated indblocks lba (le 4 indirectbuf (j * 4)) (record d.loading { state = s });
      })

  -- `uninit` is what the buffers of the call hold at first, `stale` what `dind` points at.
  unfoldable pub load_singly : (uninit : Mem) → (lba : ℕ) → Mem → (at : ℕ) → Load → Load × Mem
  load_singly uninit lba intab at l =
      let (new, s) = block_at l.state lba (i_block intab at 12) in
      let indirectbuf = read_into (l.state.bs / 512) new uninit in
      if i_block intab at 12 == 0
      then (l, uninit)
      else (load_indirect (l.state.bs / 4) 0 lba indirectbuf (record l { state = s }), indirectbuf)

  unfoldable pub load_doubly : (uninit : Mem) → (stale lba : ℕ) → Mem → (at : ℕ) → Load × Mem → Load
  load_doubly uninit stale lba intab at (l, indirectbuf) =
      let (new, s) = block_at l.state lba (i_block intab at 13) in
      let buf = read_into (l.state.bs / 512) new indirectbuf in
      if i_block intab at 13 == 0
      then l
      else (load_double (l.state.bs / 4) 0 lba (l.state.bs / 4) buf (record {
        diblock = stale;
        indirect2buf = uninit;
        loading = record l { state = s };
      })).loading

  unfoldable pub ext2_rd_file :
      (uninit : Mem) → (stale lba : ℕ) → Mem → (at : ℕ) → Mem → (memloc : ℕ) → Ext2 → Load
  unfolding load_singly load_doubly
  ext2_rd_file uninit stale lba intab at m memloc s = load_doubly uninit stale lba intab at (
      load_singly uninit lba intab at (
        load_direct 12 0 lba intab at
          (record { memory = m; memloc = memloc; databuf = uninit; state = s })))

  load_at :
      (uninit : Mem) → (stale inode : ℕ) → (index : ℤ) → Mem → (load_mem : ℕ) → Ext2 → Option Load
  load_at uninit stale inode (negsuc n) m load_mem s = none
  load_at uninit stale inode (pos i) m load_mem s =
      let (inodebuff, s') =
        ext2_rd_block read s 0 ((s.current_lba + inode_to_lba s inode) % 2 ^ 32) 1 in
      if is_reg (le 2 inodebuff (i * 128))
      then some (ext2_rd_file uninit stale s.current_lba inodebuff (i * 128) m load_mem s')
      else some (record { memory = m; memloc = load_mem; databuf = uninit; state = s' })

  -- `none` is an index outside `intab_load`. The group descriptors that `grblock` points at are
  -- those of a call that has returned: `descr` is what the stack holds there.
  pub ext2_load_file :
      (uninit descr : Mem) → (stale inode : ℕ) → Mem → (load_mem : ℕ) → Ext2 → Option Load
  unfolding load_at
  ext2_load_file uninit descr stale inode m load_mem s =
      let s' : Ext2 = record s { groupdescr = descr } in
      load_at uninit stale inode (get_index s' inode) m load_mem s'
