-- ===== src/Fs.antt =====
-- src/kernel/fs.c: the registry of file system drivers. The linked list of `fs_drv_reg` is a list,
-- a string in an array of characters its bytes. What the entry points of a driver do when they
-- are called is outside: the record `Calls`.
pub mod Registry
pub mod Root
mod Tests
use janus.Base.{
  ℕ, zero, suc, ◌+◌, ◌*◌, Bool, true, false, Option, none, some, List, [], ◌∷◌, ◌++◌, ◌==◌,
  if◌then◌else◌, same_text,
}
use janus.Base.Int.{ℤ, pos, negsuc}
use janus.Memory.{Mem}
use janus.Memory.Read.{le, chars}

-- `fs_drv_reg`
pub record Driver : Type 0 where
  pub fs_type_byte : ℕ
  pub load_mem : ℕ
  pub drv_name : List ℕ
  pub sym_root : ℕ
  pub sym_chdir : ℕ
  pub sym_loadfile : ℕ

-- The fields of `struct part_props` that `fs_root` reads.
pub record Partition : Type 0 where
  pub name : ℕ
  pub type_byte : ℕ
  pub st_lba : ℕ

-- The globals: `fs_drv_list`, the three function pointers (0 is NULL) and `fs_prop`.
pub record Fs : Type 0 where
  pub drv_list : List Driver
  pub drv_root : ℕ
  pub drv_chdir : ℕ
  pub drv_loadfile : ℕ
  pub fs_prop : ℕ

-- What a call through a function pointer returns.
pub record Calls : Type 0 where
  pub root : (sym lba drive inode : ℕ) → ℕ
  pub chdir : (sym : ℕ) → List ℕ → ℕ
  pub loadfile : (sym : ℕ) → List ℕ → ℕ → ℕ

-- "ext2", for the partition type PART_LINUX_NATIVE.
abbrev pub ext2_name : List ℕ
ext2_name = 101 ∷ 120 ∷ 116 ∷ 50 ∷ []

-- The addresses of `ext2_root`, `ext2_chdir` and `ext2_loadfile` are arguments.
pub init_fs_modules : Fs → (root chdir loadfile : ℕ) → Fs
init_fs_modules s root chdir loadfile = record s {
  drv_list =
      record {
        fs_type_byte = 0x83;
        load_mem = 0;
        drv_name = ext2_name;
        sym_root = root;
        sym_chdir = chdir;
        sym_loadfile = loadfile;
      }
      ∷ [];
}

-- The walk stops at the partition of that number or at the last node, which is an argument.
unfoldable pub find_partition : (num : ℕ) → List Partition → Partition → Partition
find_partition num [] last = last
find_partition num (p ∷ ps) last = if p.name == num then p else find_partition num ps last

-- `fs_drv_list` from `tmp` on.
pub find_driver : (type_byte : ℕ) → List Driver → Option Driver
find_driver b [] = none
find_driver b (d ∷ ds) = if d.fs_type_byte == b then some d else find_driver b ds

module _ (calls : Calls) where
  mount : Fs → Partition → Option Driver → ℕ × Fs
  mount s p none = (0, s)
  mount s p (some d) = (
    1,
    record s {
      drv_root = d.sym_root;
      drv_chdir = d.sym_chdir;
      drv_loadfile = d.sym_loadfile;
      fs_prop = calls.root d.sym_root p.st_lba 0 2;
    },
  )

  -- FS_DRV_FOUND is 1, FS_DRV_NOT_FOUND 0.
  pub fs_root : Fs → List Partition → Partition → (partition_num : ℕ) → ℕ × Fs
  unfolding mount
  fs_root s partitions last num =
      let p = find_partition num partitions last in mount s p (find_driver p.type_byte s.drv_list)

  unfoldable pub fs_chdir : Fs → List ℕ → ℕ
  fs_chdir s path = if s.drv_chdir == 0 then 0 else calls.chdir s.drv_chdir path

  unfoldable pub fs_loadfile : Fs → List ℕ → ℕ → ℕ
  fs_loadfile s filename load_mem =
      if s.drv_loadfile == 0 then 0 else calls.loadfile s.drv_loadfile filename load_mem

-- `fs_drv_mod` at an address: `mod_sign` at 0, `load_mem` at 4, `sym_tab_addr` at 12,
-- `fs_type_byte` at 16 and `mod_name` at 17. A `fs_sym_tab` has 16 bytes, `sym_val` at 12.
pub sym_val : Mem → (sym_tab_addr i : ℕ) → ℕ
sym_val m tab i = le 4 m (tab + i * 16 + 12)

-- The name is `mod_name` up to its NUL, with the byte of padding behind its 10, which is copied with
-- the header and has its like in `fs_drv_reg`. Where none of the 11 is NUL they are the name here,
-- and strcpy goes on into what stands behind the copy in the heap.
pub module_driver : Mem → (load_addr : ℕ) → Driver
unfolding sym_val
module_driver m a =
    let tab = le 4 m (a + 12) in
    record {
      fs_type_byte = m (a + 16);
      load_mem = le 4 m (a + 4);
      drv_name = chars 11 m (a + 17);
      sym_root = sym_val m tab 0;
      sym_chdir = sym_val m tab 1;
      sym_loadfile = sym_val m tab 2;
    }

-- FS_MODULE_REGISTERED is 2, FS_BAD_MODULE_FMT -1.
pub register_module : Mem → Fs → (load_addr : ℕ) → ℤ × Fs
unfolding module_driver
register_module m s a =
    if le 2 m a == 0xef86
    then (pos 2, record s { drv_list = s.drv_list ++ module_driver m a ∷ [] })
    else (negsuc 0, s)

-- The loop of `unregister_module`, behind the first node: what stays of the list from `tmp` on, and
-- the node before the one removed.
keep : Driver → Option (List Driver × Driver) → Option (List Driver × Driver)
keep d none = none
keep d (some (ds, p)) = some (d ∷ ds, p)

unlink : (name : List ℕ) → (prev : Driver) → List Driver → Option (List Driver × Driver)
unfolding keep
unlink name prev [] = none
unlink name prev (d ∷ ds) =
    let rest = keep d (unlink name d ds) in
    if same_text d.drv_name name then some (ds, prev) else rest

unlinked : Fs → Driver → Option (List Driver × Driver) → ℕ × Fs
unlinked s d none = (0, s)
unlinked s d (some (ds, prev)) = (
  1,
  record s {
    drv_list = d ∷ ds;
    drv_root = prev.sym_root;
    drv_chdir = prev.sym_chdir;
    drv_loadfile = prev.sym_loadfile;
  },
)

remove_from : Fs → (name : List ℕ) → List Driver → Option (ℕ × Fs)
unfolding unlink unlinked
remove_from s name [] = none
remove_from s name (d ∷ ds) =
    if same_text d.drv_name name
    then some (1, record s { drv_list = ds })
    else some (unlinked s d (unlink name d ds))

-- FS_MODULE_REMOVED is 1, FS_MODULE_NOT_FOUND 0. On an empty list the source reads through NULL:
-- `none`.
pub unregister_module : Fs → (drv_name : List ℕ) → Option (ℕ × Fs)
unfolding remove_from
unregister_module s name = remove_from s name s.drv_list
