-- ===== src/Commands/Run.antt =====
-- The calls of the commands by `shell_exec` of src/utils/shell.c, and a line as a whole.
use janus.Base.{ℕ, Option, none, some, List, [], ◌∷◌, ◌==◌, if◌then◌else◌, length, get_or}
use janus.Disk.{PartProps}
use janus.Fs.{Fs, Partition}
use janus.Shell.{Parsed, overrun, failure, cannot_exec, called, shell_parse}
use janus.Commands.{Outside, Done, cannot_exec_line, failed}
use janus.Commands.Help.{cmd_help}
use janus.Commands.Files.{
  cmd_ls, cmd_clear, cmd_reboot, cmd_cd, cmd_ppart, cmd_more, cmd_load, cmd_ldmod,
}
use janus.Commands.Drivers.{cmd_root, cmd_lsdrv, cmd_rmdrv, cmd_chload}
use janus.Commands.Dump.{cmd_dump}

-- What is beside the registry: the partitions as `ppart` prints them and as `fs_root` reads them,
-- the last node among these, and the entries of `argtable` behind the arguments.
pub record Shown : Type 0 where
  pub partitions : List PartProps
  pub roots : List Partition
  pub last_root : Partition
  pub behind : ℕ → List ℕ

-- `argtable`
abbrev pub table : (behind : ℕ → List ℕ) → List (List ℕ) → ℕ → List ℕ
table behind args i = get_or args i (behind i)

-- The call through `cmdtab[x].fnptr` in `shell_exec`.
unfoldable pub call : Outside → Shown → Fs → (x argc : ℕ) → (argv : ℕ → List ℕ) → Option Done
call o w s x argc argv =
    if x == 0
    then some (cmd_help s argc argv)
    else if x == 1
    then some (cmd_ls o s argc argv)
    else if x == 2
    then some (cmd_cd o s argc argv)
    else if x == 3
    then some (cmd_reboot s)
    else if x == 4
    then some (cmd_clear s)
    else if x == 5
    then some (cmd_ppart s w.partitions)
    else if x == 6
    then some (cmd_more o s argc argv)
    else if x == 7
    then some (cmd_load o s w.partitions argv)
    else if x == 8
    then some (cmd_ldmod o s argv)
    else if x == 9
    then some (cmd_root o s w.roots w.last_root argc argv)
    else if x == 10
    then some (cmd_lsdrv s)
    else if x == 11
    then cmd_rmdrv s argc argv
    else if x == 12
    then some (cmd_chload s)
    else if x == 13
    then some (cmd_dump o s argv)
    else none

-- What `shell_parse` does with a line; too many arguments are reported, which is left out.
-- `none` is a fault.
unfoldable pub answered : Outside → Shown → Fs → Parsed → Option Done
unfolding call
answered o w s overrun = none
answered o w s failure = some (s, [], failed)
answered o w s (cannot_exec name) = some (s, cannot_exec_line name ∷ [], failed)
answered o w s (called x argv) = call o w s x (length argv) (table w.behind argv)

unfoldable pub run_line : Outside → Shown → Fs → (before : ℕ) → (input : List ℕ) → Option Done
unfolding answered
run_line o w s before input = answered o w s (shell_parse before input)
