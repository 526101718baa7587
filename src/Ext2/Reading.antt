-- ===== src/Ext2/Reading.antt =====
-- What `ext2_rd_file` of src/fs/ext2/dir.c leaves in memory for a file of direct blocks.
use janus.Base.{
  ℕ, zero, suc, ◌+◌, ◌-◌, ◌*◌, ◌/◌, ◌%◌, ◌^◌, ◌≤◌, ◌<◌, ◌≡◌, refl, ◌∙◌, ap, true, false, some, List,
  [], ◌∷◌, ◌==◌, if◌then◌else◌, ltb, length, get_elem?, some-injective, none-ne-some, arith, ◌⊎◌,
  inl, inr, Bool-cases,
}
use janus.Base.Int.{ℤ}
use janus.Memory.{Mem}
use janus.Disk.{is_io_error}
use janus.Ext2.{Ext2, ext2_rd_block}
use janus.Ext2.Directory.{i_block}
use janus.Ext2.Data.{
  read_into, Load, block_at, load_block, load_direct, load_singly, load_doubly, ext2_rd_file,
}
use janus.Fat.Files.{copy_bytes}
use janus.Fat.Copying.{copy_bytes_lem}

-- The blocks of an inode that are not holes, `n` from `k` on.
abbrev pub blocks_of : (n k : ℕ) → Mem → (at : ℕ) → List ℕ
blocks_of zero k intab at = []
blocks_of (suc n) k intab at =
    if i_block intab at k == 0
    then blocks_of n (k + 1) intab at
    else i_block intab at k ∷ blocks_of n (k + 1) intab at

module _ (read : (drive lba sectors : ℕ) → ℤ × Mem) (lba : ℕ) where
  -- Drive 0 reads without errors.
  abbrev pub Reads : Type 0
  Reads = (x n : ℕ) → is_io_error (read 0 x n).0 ≡ false

  -- The bytes of a block.
  abbrev pub bytes : Ext2 → (block : ℕ) → Mem
  bytes s block =
      (read 0 (((lba + s.bs / 512 * block + 2 ^ 32 - 2) % 2 ^ 32 + 2) % 2 ^ 32) (s.bs / 512)).1

  -- `load_block` where the read succeeds.
  abbrev loaded : (block : ℕ) → Load → Load
  loaded block l =
      let databuf = read_into (l.state.bs / 512) (bytes l.state block) l.databuf in
      record {
        memory = copy_bytes 4096 0 l.memory databuf l.memloc;
        memloc = l.memloc + 4096;
        databuf = databuf;
        state = l.state;
      }

  load_block_lem : (block : ℕ) (l : Load) → Reads → load_block read lba block l ≡ loaded block l
  unfolding load_block block_at ext2_rd_block
  load_block_lem block l good =
      rw
        (good (((lba + l.state.bs / 512 * block + 2 ^ 32 - 2) % 2 ^ 32 + 2) % 2 ^ 32)
          (l.state.bs / 512))
        refl

  load_list : List ℕ → Load → Load
  load_list [] l = l
  load_list (b ∷ bs) l = load_list bs (loaded b l)

  load_direct-list :
      (n k : ℕ) (intab : Mem) (at : ℕ) (l : Load)
      → Reads
      → load_direct read n k lba intab at l ≡ load_list (blocks_of n k intab at) l
  unfolding load_direct load_list
  load_direct-list zero k intab at l good = refl
  load_direct-list (suc n) k intab at l good = elim (Bool-cases (i_block intab at k == 0)) [
    | inl e ↦ rw e (load_direct-list n (k + 1) intab at l good)
    | inr e ↦
        rw (e, load_block_lem (i_block intab at k) l good)
          (load_direct-list n (k + 1) intab at (loaded (i_block intab at k) l) good)
  ]

  load_list_outside :
      (bs : List ℕ) (l : Load) (a : ℕ)
      → (a < l.memloc) ⊎ (l.memloc + 4096 * length bs ≤ a)
      → (load_list bs l).memory a ≡ l.memory a
  unfolding load_list
  load_list_outside [] l a h = refl
  load_list_outside (b ∷ bs) l a h =
      let databuf = read_into (l.state.bs / 512) (bytes l.state b) l.databuf in
      load_list_outside bs (loaded b l) a
        (elim h [ inl x ↦ inl (omega (arith, x)) | inr x ↦ inr (omega (arith, x)) ])
      ∙ ground (arith, copy_bytes_lem 4096 0 l.memory databuf l.memloc a)

  in_block :
      (b : ℕ) (l : Load) (a : ℕ)
      → a < 512 * (l.state.bs / 512)
      → a < 4096
      → (loaded b l).memory (l.memloc + a) ≡ bytes l.state b a % 256
  in_block b l a h h' =
      let databuf = read_into (l.state.bs / 512) (bytes l.state b) l.databuf in
      let e : 0 + (l.memloc + a - l.memloc) ≡ a = omega arith in
      let t : ltb a (512 * (l.state.bs / 512)) ≡ true = ground arith in
      let r : databuf a ≡ bytes l.state b a = rw t refl in
      ground
        (arith, copy_bytes_lem 4096 0 l.memory databuf l.memloc (l.memloc + a), ap databuf e, r)

  load_list_inside :
      (bs : List ℕ) (l : Load) (i a : ℕ) {b : ℕ}
      → get_elem? bs i ≡ some b
      → a < 512 * (l.state.bs / 512)
      → a < 4096
      → (load_list bs l).memory (l.memloc + 4096 * i + a) ≡ bytes l.state b a % 256
  unfolding load_list
  load_list_inside [] l i a e h h' = absurd (none-ne-some _ e)
  load_list_inside (c ∷ bs) l zero a {b = b} e h h' =
      ap (load_list bs (loaded c l)).memory (omega arith)
      ∙ load_list_outside bs (loaded c l) (l.memloc + a) (inl (omega (arith, h')))
      ∙ in_block c l a h h'
      ∙ ap (λ z. bytes l.state z a % 256) (some-injective c b e)
  load_list_inside (c ∷ bs) l (suc i) a e h h' =
      ap (load_list bs (loaded c l)).memory (omega arith)
      ∙ load_list_inside bs (loaded c l) i a e h h'

  ext2_rd_file-list :
      (uninit : Mem) (stale : ℕ) (intab : Mem) (at : ℕ) (m : Mem) (memloc : ℕ) (s : Ext2)
      → Reads
      → i_block intab at 12 ≡ 0
      → i_block intab at 13 ≡ 0
      → ext2_rd_file read uninit stale lba intab at m memloc s
        ≡ load_list
            (blocks_of 12 0 intab at)
            (record { memory = m; memloc = memloc; databuf = uninit; state = s })
  unfolding ext2_rd_file load_singly load_doubly
  ext2_rd_file-list uninit stale intab at m memloc s good e12 e13 =
      let l0 : Load = record { memory = m; memloc = memloc; databuf = uninit; state = s } in
      let h12 : (i_block intab at 12 == 0) ≡ true = ground (arith, e12) in
      let h13 : (i_block intab at 13 == 0) ≡ true = ground (arith, e13) in
      rw (h12, h13) (load_direct-list 12 0 intab at l0 good)

  -- On a drive that reads without errors, for a file of direct blocks alone and blocks of at most
  -- 4096 bytes, `ext2_rd_file` leaves the block that comes `i`-th among those that are not holes
  -- at `memloc` and 4096 bytes on for each block before it, whatever the size of a block, and
  -- changes nothing outside.
  pub ext2_rd_file_direct :
      (uninit : Mem) (stale : ℕ) (intab : Mem) (at : ℕ) (m : Mem) (memloc : ℕ) (s : Ext2)
      → Reads
      → i_block intab at 12 ≡ 0
      → i_block intab at 13 ≡ 0
      → s.bs ≤ 4096
      → let m' = (ext2_rd_file read uninit stale lba intab at m memloc s).memory in
        ((i a b : ℕ)
          → get_elem? (blocks_of 12 0 intab at) i ≡ some b
          → a < 512 * (s.bs / 512)
          → m' (memloc + 4096 * i + a) ≡ bytes s b a % 256)
        × ((a : ℕ)
            → (a < memloc) ⊎ (memloc + 4096 * length (blocks_of 12 0 intab at) ≤ a)
            → m' a ≡ m a)
  ext2_rd_file_direct uninit stale intab at m memloc s good e12 e13 b =
      let l0 : Load = record { memory = m; memloc = memloc; databuf = uninit; state = s } in
      let bs = blocks_of 12 0 intab at in
      let run = ext2_rd_file-list uninit stale intab at m memloc s good e12 e13 in
      (
        (λ i a c e h.
            ap (λ l. l.memory (memloc + 4096 * i + a)) run
            ∙ load_list_inside bs l0 i a e h (omega (arith, b, h))),
        (λ a h. ap (λ l. l.memory a) run ∙ load_list_outside bs l0 a h),
      )
