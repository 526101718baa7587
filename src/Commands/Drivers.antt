-- ===== src/Commands/Drivers.antt =====
-- src/utils/shell_builtin.c: the commands on drivers, and `list_drivers` of src/kernel/fs.c.
use janus.Base.{ℕ, ◌&&◌, Option, none, some, List, [], ◌∷◌, ◌==◌, if◌then◌else◌, leb}
use janus.Fs.{Driver, Fs, Partition, fs_root, unregister_module}
use janus.Commands.{
  Act, Outside, Done, number, first, rest, new_line, wrong_usage, filesystem_not_supported,
  driver_line, module_not_found, real_mode, unset,
}

unfoldable pub cmd_root :
    Outside → Fs → List Partition → Partition → (argc : ℕ) → (argv : ℕ → List ℕ) → Done
cmd_root o s ps last argc argv =
    let c = argv 1 in
    let (ret, s') = fs_root o.calls s ps last (number o.junk (rest c)) in
    let asked : Done = (s', (if ret == 0 then filesystem_not_supported ∷ [] else []), unset) in
    let wrong : Done = (s, wrong_usage ∷ [], unset) in
    if (first c == b'p') && leb argc 2 then asked else wrong

-- `list_drivers` of src/kernel/fs.c.
pub list_drivers : List Driver → List Act
list_drivers [] = new_line ∷ []
list_drivers (d ∷ ds) = driver_line d ∷ list_drivers ds

pub cmd_lsdrv : Fs → Done
unfolding list_drivers
cmd_lsdrv s = (s, list_drivers s.drv_list, unset)

-- The message after `unregister_module`; `none` is its read through NULL.
unfoldable pub removed : (name : List ℕ) → Option (ℕ × Fs) → Option Done
removed name none = none
removed name (some (ret, s)) =
    some (s, (if ret == 0 then module_not_found name ∷ [] else []), unset)

unfoldable pub cmd_rmdrv : Fs → (argc : ℕ) → (argv : ℕ → List ℕ) → Option Done
unfolding removed
cmd_rmdrv s argc argv =
    if argc == 2
    then removed (argv 1) (unregister_module s (argv 1))
    else some (s, wrong_usage ∷ [], unset)

pub cmd_chload : Fs → Done
cmd_chload s = (s, real_mode ∷ [], unset)
