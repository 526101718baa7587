-- ===== src/Ext2/Ending.antt =====
-- `ext2_rd_dir` of src/fs/ext2/dir.c comes to an end.
use janus.Base.{
  ℕ, zero, suc, ◌+◌, ◌-◌, ◌*◌, ◌/◌, ◌%◌, ◌^◌, ◌<◌, ◌≡◌, ◌≢◌, refl, subst, ◌==◌, if◌then◌else◌, Bool,
  true, false, leb, arith, inl, inr, Bool-cases,
}
use janus.Base.Int.{ℤ, pos, negsuc}
use janus.Memory.{Mem}
use janus.Memory.Read.{le}
use janus.Disk.{is_io_error}
use janus.Ext2.{FileProperties, Ext2, get_index, ext2_rd_block}
use janus.Ext2.Directory.{
  Walk, no_fuel, fault, walked, rec_len, next_node, i_block, fill_node, after_entry, list_block,
  dirbuf_size, can_list, rd_dir_block, rd_dir_blocks, and_then, ext2_rd_dir,
}

module _ (read : (drive lba sectors : ℕ) → ℤ × Mem) (fresh : FileProperties) where
  -- An ending other than for want of fuel, with the block size as it was.
  abbrev Ends : (bs : ℕ) → Walk → Type 0
  Ends bs no_fuel = ⊥
  Ends bs fault = Unit
  Ends bs (walked s) = s.bs ≡ bs

  rd_block-bs : (s : Ext2) (drive lba n : ℕ) → (ext2_rd_block read s drive lba n).1.bs ≡ s.bs
  unfolding ext2_rd_block
  rd_block-bs s drive lba n =
      elim (Bool-cases (is_io_error (read drive ((lba + 2) % 2 ^ 32) n).0)) [
        | inl e ↦ rw e refl
        | inr e ↦ rw e refl
      ]

  fill_node-Ends :
      (s : Ext2) (drive lba : ℕ) (buf : Mem) (p : ℕ) (i : ℤ)
      → Ends s.bs (fill_node read fresh s drive lba buf p i)
  unfolding fill_node
  fill_node-Ends s drive lba buf p (negsuc n) = tt
  fill_node-Ends s drive lba buf p (pos n) = rd_block-bs s drive _ 1

  entry-Ends :
      (s : Ext2) (drive lba : ℕ) (buf : Mem) (p : ℕ) (inside : Bool)
      → Ends s.bs (
          if inside
          then fill_node read fresh s drive lba buf p (get_index s (le 4 buf p))
          else fault)
  entry-Ends s drive lba buf p true = fill_node-Ends s drive lba buf p (get_index s (le 4 buf p))
  entry-Ends s drive lba buf p false = tt

  after_entry-Ends :
      (fuel drive lba : ℕ) (buf : Mem) (p bs : ℕ) (w : Walk)
      → ((q : ℕ) (s : Ext2)
          → s.bs ≡ bs
          → p < q
          → q < bs
          → Ends bs (list_block read fresh fuel drive lba buf q s))
      → Ends bs w
      → Ends bs (after_entry read fresh (list_block read fresh fuel drive lba buf) buf p w)
  unfolding after_entry next_node
  after_entry-Ends fuel drive lba buf p bs no_fuel again h = h
  after_entry-Ends fuel drive lba buf p bs fault again h = tt
  after_entry-Ends fuel drive lba buf p bs (walked s) again h =
      elim (Bool-cases (leb s.bs (rec_len buf p + p))) [
        | inl e ↦ rw e h
        | inr e ↦ elim (Bool-cases (rec_len buf p == 0)) [
          | inl z ↦ rw (e, z) h
          | inr z ↦
              let inside : rec_len buf p + p < s.bs = ground arith in
              let moved : rec_len buf p ≢ 0 = ground arith in
              rw (e, z)
                (again (p + rec_len buf p) (next_node s fresh) h (omega (arith, moved))
                  (omega (arith, inside, h)))
        ]
      ]

  list_block-Ends :
      (fuel drive lba : ℕ) (buf : Mem) (p : ℕ) (s : Ext2)
      → s.bs < p + fuel
      → 0 < fuel
      → Ends s.bs (list_block read fresh fuel drive lba buf p s)
  unfolding list_block
  list_block-Ends zero drive lba buf p s h pf = absurd (omega (arith, pf))
  list_block-Ends (suc fuel) drive lba buf p s h pf =
      after_entry-Ends fuel drive lba buf p s.bs _
        (λ q s' e lo hi.
          subst (λ b. Ends b (list_block read fresh fuel drive lba buf q s')) e
            (list_block-Ends fuel drive lba buf q s' (omega (arith, e, lo, hi, h))
              (omega (arith, e, lo, hi, h))))
        (entry-Ends s drive lba buf p (can_list s buf p))

  Ends-and_then :
      (w : Walk) (f : Ext2 → Walk) (bs : ℕ)
      → Ends bs w
      → ((s : Ext2) → s.bs ≡ bs → Ends bs (f s))
      → Ends bs (and_then w f)
  unfolding and_then
  Ends-and_then no_fuel f bs h k = h
  Ends-and_then fault f bs h k = tt
  Ends-and_then (walked s) f bs h k = k s h

  listed_block-Ends :
      (drive lba block : ℕ) (s : Ext2)
      → let (dirbuf, s') =
          ext2_rd_block read s drive
            ((lba + s.bs / 512 * block + 2 ^ 32 - 2) % 2 ^ 32)
            (s.bs / 512) in
        Ends s.bs (list_block read fresh (suc s.bs) drive lba dirbuf 0 s')
  listed_block-Ends drive lba block s =
      let (dirbuf, s') =
        ext2_rd_block read s drive ((lba + s.bs / 512 * block + 2 ^ 32 - 2) % 2 ^ 32)
          (s.bs / 512) in
      let same : s'.bs ≡ s.bs = rd_block-bs s drive _ _ in
      subst (λ b. Ends b (list_block read fresh (suc s.bs) drive lba dirbuf 0 s')) same
        (list_block-Ends (suc s.bs) drive lba dirbuf 0 s' (omega (arith, same)) (omega arith))

  rd_dir_block-Ends :
      (drive lba block : ℕ) (s : Ext2) → Ends s.bs (rd_dir_block read fresh drive lba block s)
  unfolding rd_dir_block
  rd_dir_block-Ends drive lba block s = elim (Bool-cases (block == 0)) [
    | inl e ↦ rw e refl
    | inr e ↦ elim (Bool-cases (leb s.bs dirbuf_size)) [
      | inl fits ↦ rw (e, fits) (listed_block-Ends drive lba block s)
      | inr over ↦ rw (e, over) tt
    ]
  ]

  rd_dir_blocks-Ends :
      (n k drive lba : ℕ) (intab : Mem) (at : ℕ) (s : Ext2)
      → Ends s.bs (rd_dir_blocks read fresh n k drive lba intab at s)
  unfolding rd_dir_blocks
  rd_dir_blocks-Ends zero k drive lba intab at s = refl
  rd_dir_blocks-Ends (suc n) k drive lba intab at s =
      Ends-and_then (rd_dir_block read fresh drive lba (i_block intab at k) s)
        (rd_dir_blocks read fresh n (k + 1) drive lba intab at) s.bs
        (rd_dir_block-Ends drive lba (i_block intab at k) s)
        (λ s' e.
          subst (λ b. Ends b (rd_dir_blocks read fresh n (k + 1) drive lba intab at s')) e
            (rd_dir_blocks-Ends n (k + 1) drive lba intab at s'))

  -- Whatever the disk holds, `ext2_rd_dir` returns, or faults: at an index outside `intab1`, at a
  -- block size over the 4096 bytes of `dirbuf`, at an entry that reaches beyond them, at a name that
  -- does not fit into the 255 bytes of `filename`, or where the inodes per group are 0. It never runs
  -- out of the fuel of a block's bytes.
  pub ext2_rd_dir-ends :
      (drive lba : ℕ) (intab : Mem) (at : ℕ) (s : Ext2)
      → ext2_rd_dir read fresh drive lba intab at s ≢ no_fuel
  unfolding ext2_rd_dir
  ext2_rd_dir-ends drive lba intab at s e =
      subst (Ends s.bs) e (rd_dir_blocks-Ends 12 0 drive lba intab at (record s { item_index = 0 }))
