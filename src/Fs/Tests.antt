-- ===== src/Fs/Tests.antt =====
-- fs.c with a driver for ext2 and one for FAT32.
use janus.Base.{ℕ, ◌+◌, ◌≡◌, refl, some, List, [], ◌∷◌, ◌==◌, if◌then◌else◌}
use janus.Memory.{Mem}
use janus.Memory.Read.{le, chars}
use janus.Fs.{
  Driver, Partition, Fs, Calls, ext2_name, module_driver, register_module, unregister_module,
}
use janus.Fs.Registry.{registered, unregister_module-register_module}

abbrev ext2 : Driver
ext2 = record {
  fs_type_byte = 0x83;
  load_mem = 0;
  drv_name = ext2_name;
  sym_root = 100;
  sym_chdir = 200;
  sym_loadfile = 300;
}

-- "fat32"
abbrev fat32_name : List ℕ
fat32_name = 102 ∷ 97 ∷ 116 ∷ 51 ∷ 50 ∷ []

abbrev fat32 : Driver
fat32 = record {
  fs_type_byte = 0x0b;
  load_mem = 0x9000;
  drv_name = fat32_name;
  sym_root = 400;
  sym_chdir = 500;
  sym_loadfile = 600;
}

abbrev two : Fs
two = record {
  drv_list = ext2 ∷ fat32 ∷ [];
  drv_root = 100;
  drv_chdir = 200;
  drv_loadfile = 300;
  fs_prop = 0;
}

abbrev calls : Calls
calls = record {
  root = λ sym lba drive inode. sym + lba;
  chdir = λ sym path. sym + 1;
  loadfile = λ sym file mem. sym + mem;
}

abbrev part : Partition
part = record { name = 1; type_byte = 0x0b; st_lba = 63 }

-- A module at 0 with the good signature and an empty name.
abbrev image : Mem
image p = if p == 0 then 0x86 else if p == 1 then 0xef else 0

unregister_module-register_module_example :
    (s' : Fs) × (unregister_module (register_module image two 0).1 (module_driver image 0).drv_name
      ≡ some (1, s'))
    × (s'.drv_list ≡ two.drv_list)
unfolding le module_driver chars registered
unregister_module-register_module_example = unregister_module-register_module image two 0 refl refl
