-- ===== src/Ext2/Inodes.antt =====
-- Where `inode_to_lba` and `get_index` of src/fs/ext2/ext2.c find an inode.
use janus.Base.{
  ℕ, ◌+◌, ◌-◌, ◌*◌, ◌/◌, ◌%◌, ◌^◌, ◌≤◌, ◌<◌, ◌≡◌, refl, ◌∙◌, ap, true, false, ◌==◌, arith,
  Bool-cases, inl, inr,
}
use janus.Base.Int.{ℤ, pos}
use janus.Memory.{Mem}
use janus.Disk.{is_io_error}
use janus.Ext2.{
  FileProperties, Ext2, inode_to_lba, get_index, inodes_per_group, blocks_per_group, inode_table,
  has_super, ext2_rd_block,
}
use janus.Ext2.Directory.{fault, ext2_rd_inode}
use native.Mathlib.Nat.{
  mul-add-mod_self_right, mul-add-div_right, mod-eq_of_lt, mul-mod_left, div-eq_of_lt,
}

-- The sector of the inode with number `r` in a group, from the partition's start, where the
-- group's table begins at `block`: blocks have `n` sectors, and a sector 4 inodes.
abbrev pub table_sector : (block n r : ℕ) → ℕ
table_sector block n r = block * n + r / 4

-- What the division by the size of a group gives.
in_group : (group m r : ℕ) → r < m → ((group * m + r) % m ≡ r) × ((group * m + r) / m ≡ group)
in_group group m r h = (
  mul-add-mod_self_right group m r ∙ mod-eq_of_lt h,
  mul-add-div_right (omega (arith, h)) group r ∙ ap (λ q. group + q) (div-eq_of_lt h) ∙ omega arith,
)

-- The sum of `inode_to_lba`: the words before the table, those of the table, and the inode.
spread : (x y n : ℕ) → x * (4 * n) + y * (4 * n) ≡ 4 * ((x + y) * n)
spread x y n = omega arith

sector_sum :
    (g bpg table n r : ℕ)
    → 2 ≤ (g * bpg + table) * n + r / 4
    → 4 * ((g * bpg + table) * n + r / 4) + 3 < 2 ^ 32
    → ((g * bpg * (4 * n) + (r + 1 + 2 ^ 32 - 1) + table * (4 * n)) % 2 ^ 32 / 4 + 2 ^ 32 - 2)
          % 2 ^ 32
        + 2
      ≡ (g * bpg + table) * n + r / 4
sector_sum g bpg table n r lo hi = omega (arith, lo, hi, spread (g * bpg) table n)

-- The inode `r` of a group, from 0 on and not its last, is in a group that the code lists, all
-- with their table at the same place, and its sector is the third of the partition or a later one
-- below 2^30. Then `inode_to_lba`, with the 2 that `ext2_rd_block` adds, is the sector of the
-- group's table that holds the inode, and `get_index` its place there.
pub inode_to_lba_lem :
    (s : Ext2) (group r n : ℕ)
    → s.bs ≡ 512 * n
    → has_super group ≡ true
    → r + 1 < inodes_per_group s
    → 2 ≤ table_sector (group * blocks_per_group s + inode_table s) n r
    → 4 * table_sector (group * blocks_per_group s + inode_table s) n r + 3 < 2 ^ 32
    → (inode_to_lba s (group * inodes_per_group s + (r + 1)) + 2
        ≡ table_sector (group * blocks_per_group s + inode_table s) n r)
      × (get_index s (group * inodes_per_group s + (r + 1)) ≡ pos (r % 4))
unfolding inode_to_lba get_index
inode_to_lba_lem s group r n eb hs lt lo hi =
    let (rest, whole) = in_group group (inodes_per_group s) (r + 1) lt in
    let ss : s.bs / 128 ≡ 4 * n = omega (arith, eb) in
    let ne : (r + 1 == 0) ≡ false = ground arith in
    (
      rw (whole, rest, ss, hs) (sector_sum group (blocks_per_group s) (inode_table s) n r lo hi),
      rw (rest, ne) (ap pos (omega arith)),
    )

-- For the last inode of each group the index is -1: whatever the disk holds, `ext2_rd_inode` writes
-- outside `intab`.
ext2_rd_inode-last :
    (read : (drive lba sectors : ℕ) → ℤ × Mem)
    → (fresh : FileProperties) (s : Ext2) (drive lba k : ℕ)
    → ext2_rd_inode read fresh drive lba (k * inodes_per_group s) s ≡ fault
unfolding ext2_rd_inode ext2_rd_block get_index
ext2_rd_inode-last read fresh s drive lba k =
    let e : (k * inodes_per_group s % inodes_per_group s == 0) ≡ true =
      ground (arith, mul-mod_left k (inodes_per_group s)) in
    elim (Bool-cases (is_io_error (read drive (((lba + s.gdoffset) % 2 ^ 32 + 2) % 2 ^ 32) 2).0)) [
      | inl x ↦ rw (x, e) refl
      | inr x ↦ rw (x, e) refl
    ]
