-- ===== src/Fs/Root.antt =====
-- Choosing the driver of a partition, and the pointers that stay behind.
use janus.Base.{ℕ, ◌≡◌, ◌≢◌, refl, some, List, [], ◌∷◌, ◌++◌, same_text_self, arith}
use janus.Fs.{
  Driver, Partition, Fs, Calls, find_partition, find_driver, fs_root, fs_chdir, fs_loadfile,
  unregister_module,
}

-- No driver of the list is for that type.
abbrev pub NoneFor : ℕ → List Driver → Type 0
NoneFor b [] = Unit
NoneFor b (d ∷ ds) = (d.fs_type_byte ≢ b) × NoneFor b ds

find_driver_lem :
    (b : ℕ) (pre : List Driver) (d : Driver) (ds : List Driver)
    → NoneFor b pre
    → d.fs_type_byte ≡ b
    → find_driver b (pre ++ d ∷ ds) ≡ some d
unfolding find_driver
find_driver_lem b [] d ds n e = ground arith
find_driver_lem b (c ∷ pre) d ds n e = ground (arith, find_driver_lem b pre d ds n.1 e)

-- `fs_root` takes the driver that was registered first for the partition's type, calls its root
-- entry with the partition's start, and from then on `fs_chdir` and `fs_loadfile` call that driver.
pub fs_root_first :
    (calls : Calls) (s : Fs) (ps : List Partition) (last : Partition) (num : ℕ) (pre : List Driver)
    (d : Driver) (ds : List Driver)
    → s.drv_list ≡ pre ++ d ∷ ds
    → NoneFor (find_partition num ps last).type_byte pre
    → d.fs_type_byte ≡ (find_partition num ps last).type_byte
    → d.sym_chdir ≢ 0
    → d.sym_loadfile ≢ 0
    → (s' : Fs) × (fs_root calls s ps last num ≡ (1, s'))
      × (s'.fs_prop ≡ calls.root d.sym_root (find_partition num ps last).st_lba 0 2)
      × ((path : List ℕ) → fs_chdir calls s' path ≡ calls.chdir d.sym_chdir path)
      × ((file : List ℕ) (mem : ℕ)
          → fs_loadfile calls s' file mem ≡ calls.loadfile d.sym_loadfile file mem)
unfolding fs_root fs_chdir fs_loadfile
fs_root_first calls s ps last num pre d ds e n t c l = (
  record s {
    drv_root = d.sym_root;
    drv_chdir = d.sym_chdir;
    drv_loadfile = d.sym_loadfile;
    fs_prop = calls.root d.sym_root (find_partition num ps last).st_lba 0 2;
  },
  rw (e, find_driver_lem (find_partition num ps last).type_byte pre d ds n t) refl,
  refl,
  λ path. ground arith,
  λ file mem. ground arith,
)

-- Removing the first driver of the list leaves the three function pointers as they were: after
-- `fs_root` has chosen that driver, `fs_chdir` still calls into it.
unregister_module-dangling :
    (calls : Calls) (s : Fs) (d : Driver) (ds : List Driver)
    → s.drv_list ≡ d ∷ ds
    → s.drv_chdir ≡ d.sym_chdir
    → d.sym_chdir ≢ 0
    → (s' : Fs) × (unregister_module s d.drv_name ≡ some (1, s'))
      × (s'.drv_list ≡ ds)
      × ((path : List ℕ) → fs_chdir calls s' path ≡ calls.chdir d.sym_chdir path)
unfolding unregister_module fs_chdir
unregister_module-dangling calls s d ds e c n =
    (record s { drv_list = ds }, rw (e, same_text_self d.drv_name) refl, refl, λ path. ground arith)
