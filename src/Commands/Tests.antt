-- ===== src/Commands/Tests.antt =====
-- shell_builtin.c on concrete lines.
use janus.Base.{ℕ, ◌≡◌, refl, some, List, [], ◌∷◌, arith, get_or}
use janus.Fs.{find_partition, Driver, Fs, fs_loadfile, fs_chdir}
use janus.Shell.{shell_parse, shell_panic}
use janus.Base.Int.{pos}
use janus.Fs.Registry.{registered, without}
use janus.Shell.Split.{line}
use janus.Commands.{
  character, screen_cleared, command_help, command_not_found, success, unset, Outside,
}
use janus.Commands.Run.{Shown, run_line}
use janus.Commands.Help.{cmd_help}
use janus.Commands.Files.{cmd_more, cmd_clear}
use janus.Commands.Help.{answers, cmd_help-shell}
use janus.Str.Number.{dec_value}
use janus.Commands.Rooted.{root, cd, moved, run_line-root_cd}
use janus.Commands.Typed.{rmdrv, run_line-rmdrv}

abbrev driver : List ℕ → Driver
driver name = record {
  fs_type_byte = 0x0b;
  load_mem = 0x100000;
  drv_name = name;
  sym_root = 1;
  sym_chdir = 2;
  sym_loadfile = 3;
}

-- "ext2" and "vfat"
abbrev two_drivers : Fs
two_drivers = record {
  drv_list = driver (101 ∷ 120 ∷ 116 ∷ 50 ∷ []) ∷ driver (118 ∷ 102 ∷ 97 ∷ 116 ∷ []) ∷ [];
  drv_root = 1;
  drv_chdir = 2;
  drv_loadfile = 3;
  fs_prop = 0x5000;
}

-- A directory with the file "a" of 3 bytes, which is loaded at 16.
abbrev outside : Outside
outside = record {
  calls = record {
    root = λ sym lba drive inode. 0x5000;
    chdir = λ sym path. 0x5000;
    loadfile = λ sym name mem. 16;
  };
  listing = λ p. record { start = 9; size = 3; file_type = 1; filename = 97 ∷ [] } ∷ [];
  mem = λ p. p;
  read = λ mem lba. pos 0;
  junk = 0;
}

abbrev shown : Shown
shown = record {
  partitions = [];
  roots = record { name = 1; type_byte = 0x0b; st_lba = 63 } ∷ [];
  last_root = record { name = 0; type_byte = 0; st_lba = 0 };
  behind = λ i. [];
}

-- `more a`
more_run :
    run_line outside shown two_drivers 0 (109 ∷ 111 ∷ 114 ∷ 101 ∷ 32 ∷ 97 ∷ [])
    ≡ some (two_drivers, character 16 ∷ character 17 ∷ character 18 ∷ [], success)
unfolding run_line shell_parse fs_loadfile fs_chdir shell_panic cmd_more
more_run = refl

-- `clear`
clear_run :
    run_line outside shown two_drivers 0 (99 ∷ 108 ∷ 101 ∷ 97 ∷ 114 ∷ [])
    ≡ some (two_drivers, screen_cleared ∷ [], unset)
unfolding run_line shell_parse cmd_clear
clear_run = refl

-- `help cd mv`
abbrev help_args : ℕ → List ℕ
help_args i = get_or ((104 ∷ 101 ∷ 108 ∷ 112 ∷ []) ∷ (99 ∷ 100 ∷ []) ∷ (109 ∷ 118 ∷ []) ∷ []) i []

help_run :
    cmd_help two_drivers 3 help_args
    ≡ (two_drivers, command_not_found (109 ∷ 118 ∷ []) ∷ command_help 2 ∷ [], success)
unfolding cmd_help
help_run = refl

cmd_help-shell_example :
    cmd_help two_drivers 3 help_args ≡ (two_drivers, answers 2 help_args, success)
cmd_help-shell_example = cmd_help-shell two_drivers 1 help_args

-- `rmdrv vfat`
run_line-rmdrv_example :
    (s' : Fs) × (run_line outside shown two_drivers 0
        (line ((rmdrv, 0) ∷ (118 ∷ 102 ∷ 97 ∷ 116 ∷ [], 0) ∷ []))
      ≡ some (s', [], unset))
    × (s'.drv_list ≡ driver (101 ∷ 120 ∷ 116 ∷ 50 ∷ []) ∷ [])
unfolding without registered
run_line-rmdrv_example =
    run_line-rmdrv outside shown two_drivers 0 0 0 (118 ∷ 102 ∷ 97 ∷ 116 ∷ [])
      (λ e. omega (arith, e)) (λ e. cc)
      (
        (λ e. omega (arith, e)),
        (λ e. omega (arith, e)),
        (λ e. omega (arith, e)),
        (
          (λ e. omega (arith, e)),
          (λ e. omega (arith, e)),
          (λ e. omega (arith, e)),
          (
            (λ e. omega (arith, e)),
            (λ e. omega (arith, e)),
            (λ e. omega (arith, e)),
            ((λ e. omega (arith, e)), (λ e. omega (arith, e)), (λ e. omega (arith, e)), tt),
          ),
        ),
      )
      (omega arith) (λ e. cc)

-- `root p1` and `cd bin`
run_line-root_cd_example :
    (s' : Fs) × (run_line outside shown two_drivers 0 (line ((root, 0) ∷ (112 ∷ 49 ∷ [], 0) ∷ []))
      ≡ some (s', [], unset))
    × (run_line outside shown s' 0 (line ((cd, 0) ∷ (98 ∷ 105 ∷ 110 ∷ [], 0) ∷ []))
        ≡ some (moved s' 0x5000))
unfolding dec_value find_partition
run_line-root_cd_example =
    run_line-root_cd outside shown two_drivers 0 0 0 0 0 (49 ∷ []) (98 ∷ 105 ∷ 110 ∷ []) []
      (driver (101 ∷ 120 ∷ 116 ∷ 50 ∷ [])) (driver (118 ∷ 102 ∷ 97 ∷ 116 ∷ []) ∷ [])
      (λ e. omega (arith, e)) (refl, tt) (λ e. cc)
      (
        (λ e. omega (arith, e)),
        (λ e. omega (arith, e)),
        (λ e. omega (arith, e)),
        (
          (λ e. omega (arith, e)),
          (λ e. omega (arith, e)),
          (λ e. omega (arith, e)),
          ((λ e. omega (arith, e)), (λ e. omega (arith, e)), (λ e. omega (arith, e)), tt),
        ),
      )
      (omega arith) (omega arith) refl tt refl (λ e. omega (arith, e)) (λ e. omega (arith, e))
