-- ===== src/Ext2/Files.antt =====
-- `init_ext2`, `ext2_loadfile`, `ext2_chdir` and `ext2_root` of src/fs/ext2/dir.c. The loop that
-- splits a path is that of Fat/Pathname.
use janus.Base.{
  ℕ, ◌-◌, ◌^◌, Option, none, some, List, [], ◌∷◌, ◌++◌, ◌==◌, if◌then◌else◌, same_text,
}
use janus.Base.Int.{ℤ}
use janus.Memory.{Mem}
use janus.Ext2.{FileProperties, Ext2, shell_panic, ext2_rd_superblock}
use janus.Ext2.Directory.{Walk, no_fuel, fault, walked, ext2_rd_inode}
use janus.Fat.Pathname.{split_path}
use janus.Ext2.Data.{Load, ext2_load_file}

-- FIL_NOT_FOUND, NOT_REG_FILE, DIR_NOT_FOUND, PAT_LEN_EXCEED and CD_ERR.
abbrev pub fil_not_found : ℕ
fil_not_found = 2 ^ 32 - 5

abbrev pub not_reg_file : ℕ
not_reg_file = 2 ^ 32 - 6

abbrev pub dir_not_found : ℕ
dir_not_found = 2 ^ 32 - 7

abbrev pub pat_len_exceed : ℕ
pat_len_exceed = 2 ^ 32 - 9

abbrev pub cd_err : ℕ
cd_err = 2 ^ 32 - 10

abbrev pub whole_list : Ext2 → List FileProperties
whole_list s = s.files ++ s.last ∷ []

-- What a call returns: nothing, as for want of fuel or at a fault, or a value.
pub data Answer : Type 0 where
  stuck : Answer
  listing : List FileProperties → Ext2 → Answer
  failure : Ext2 → Answer
  code : ℕ → Mem → Ext2 → Answer

abbrev answer : Walk → (Ext2 → Answer) → Answer
answer no_fuel f = stuck
answer fault f = stuck
answer (walked s) f = f s

-- The first node of that name.
pub find_node : (name : List ℕ) → List FileProperties → Option FileProperties
find_node name [] = none
find_node name (f ∷ fs) = if same_text name f.filename then some f else find_node name fs

module _ (read : (drive lba sectors : ℕ) → ℤ × Mem) (fresh : FileProperties) where
  -- The superblock's result is not looked at.
  pub init_ext2 : (drive lba inode : ℕ) → Ext2 → Walk
  init_ext2 drive lba inode s =
      let empty : Ext2 = record s { files = []; last = fresh } in
      ext2_rd_inode read fresh drive lba inode (ext2_rd_superblock read empty drive lba).1

  loaded : (to : ℕ) → Option Load → Answer
  loaded to none = stuck
  loaded to (some l) = code to l.memory l.state

  load_found :
      (uninit descr : Mem)
      → (stale : ℕ) → Mem
      → (load_mem heap : ℕ) → Ext2
      → Option FileProperties
      → Answer
  unfolding loaded
  load_found uninit descr stale m load_mem heap s none = code fil_not_found m s
  load_found uninit descr stale m load_mem heap s (some f) =
      let to = if load_mem == 0 then heap else load_mem in
      if f.file_type == 1
      then loaded to (ext2_load_file read uninit descr stale f.inode m to s)
      else code not_reg_file m s

  -- `heap` is what `kmalloc(ext2_temp->size)` returns.
  pub ext2_loadfile :
      (uninit descr : Mem) → (stale : ℕ) → Mem → (c : List ℕ) → (load_mem heap : ℕ) → Ext2 → Answer
  unfolding load_found find_node
  ext2_loadfile uninit descr stale m c load_mem heap s =
      answer (init_ext2 s.current_drive s.current_lba s.current_inode s)
        (λ s'. load_found uninit descr stale m load_mem heap s' (find_node c (whole_list s')))

  abbrev pub again : Ext2 → Walk
  again s = init_ext2 s.current_drive s.current_lba s.current_inode s

  -- One part of the path; the rest of the walk is `rest`.
  enter : (rest : Ext2 → Answer) → Ext2 → Option FileProperties → Answer
  enter rest s none =
      answer (again s) (λ s'. listing (whole_list s') (shell_panic s' dir_not_found))
  enter rest s (some f) =
      let panicked = shell_panic s cd_err in
      if f.file_type == 2
      then answer (again (record s { current_inode = f.inode })) rest
      else listing (whole_list panicked) panicked

  pub walk_path : List (List ℕ) → Ext2 → Answer
  unfolding enter find_node
  walk_path [] s = listing (whole_list s) s
  walk_path ([] ∷ parts) s = walk_path parts s
  walk_path ((c ∷ cs) ∷ parts) s = enter (walk_path parts) s (find_node (c ∷ cs) (whole_list s))

  chdir_parts : Option (Option (List (List ℕ))) → Ext2 → Answer
  unfolding walk_path
  chdir_parts none s = stuck
  chdir_parts (some none) s = failure (shell_panic s pat_len_exceed)
  chdir_parts (some (some parts)) s = answer (again s) (walk_path parts)

  pub ext2_chdir : (c : List ℕ) → Ext2 → Answer
  unfolding chdir_parts
  ext2_chdir c s = chdir_parts (split_path c) s

  pub ext2_root : (lba drive inode : ℕ) → Ext2 → Answer
  unfolding ext2_chdir
  ext2_root lba drive inode s =
      ext2_chdir (47 ∷ [])
        (record s { current_lba = lba; current_drive = drive; current_inode = inode })
