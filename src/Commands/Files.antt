-- ===== src/Commands/Files.antt =====
-- src/utils/shell_builtin.c: the commands on files, partitions and the screen.
use janus.Base.{ℕ, ◌^◌, ◌&&◌, not, List, [], ◌∷◌, ◌++◌, ◌==◌, if◌then◌else◌, ltb, same_text, map}
use janus.Base.Int.{pos, negsuc}
use janus.Disk.{PartProps}
use janus.Fs.{Fs, fs_chdir, fs_loadfile, register_module}
use janus.Shell.{shell_panic}
use janus.Commands.{
  FileProps, Act, Outside, Done, as_int, panics, number, first, rest, characters,
  partition_not_supported, file_name, file_line, new_line, wrong_usage, partition_heading,
  partition_line, disk_read, real_mode, screen_cleared, rebooted, success, failed, unset,
}

-- The nodes with a name, as `ls -l` prints them.
named : List FileProps → List Act
named [] = []
named (f ∷ fs) = let l = named fs in if same_text f.filename [] then l else file_line f ∷ l

-- `ls` with no argument, with one, and with more.
list_files : (argc : ℕ) → List ℕ → List FileProps → List Act
unfolding named
list_files argc arg fs =
    if argc == 1
    then map (λ f. file_name f.filename) fs ++ new_line ∷ []
    else if argc == 2
    then if first arg == b'-' && (first (rest arg) == b'l') then named fs else wrong_usage ∷ []
    else wrong_usage ∷ []

pub cmd_ls : Outside → Fs → (argc : ℕ) → (argv : ℕ → List ℕ) → Done
unfolding list_files
cmd_ls o s argc argv = (
  s,
  (if s.fs_prop == 0
      then partition_not_supported ∷ []
      else list_files argc (argv 1) (o.listing s.fs_prop)),
  unset,
)

unfoldable pub cmd_clear : Fs → Done
cmd_clear s = (s, screen_cleared ∷ [], unset)

pub cmd_reboot : Fs → Done
cmd_reboot s = (s, rebooted ∷ [], unset)

-- The second `fs_chdir`, to ".", only sets `fs_temp`.
unfoldable pub cmd_cd : Outside → Fs → (argc : ℕ) → (argv : ℕ → List ℕ) → Done
cmd_cd o s argc argv =
    let w = fs_chdir o.calls s (argv 1) in
    let moved : Done = (record s { fs_prop = w }, [], unset) in
    let stays : Done = (s, panics (as_int w), failed) in
    let wrong : Done = (s, wrong_usage ∷ [], unset) in
    if argc == 2 then if shell_panic (as_int w) then stays else moved else wrong

-- The nodes from `partition` on, without the node at the end.
pub cmd_ppart : Fs → List PartProps → Done
cmd_ppart s ps = (s, partition_heading ∷ map partition_line ps, success)

-- The size of the file in the listing; `junk` where no node has its name.
pub size_of : (junk : ℕ) → List FileProps → (name : List ℕ) → ℕ
size_of junk [] name = junk
size_of junk (f ∷ fs) name =
    let later = size_of junk fs name in
    if same_text f.filename name && not (f.file_type == 0) then f.size else later

-- `size` is an `int`: where it is negative nothing is printed.
abbrev pub rounds : ℕ → ℕ
rounds size = if ltb size (2 ^ 31) then size else 0

unfoldable pub cmd_more : Outside → Fs → (argc : ℕ) → (argv : ℕ → List ℕ) → Done
unfolding size_of characters
cmd_more o s argc argv =
    let usage = if ltb 2 argc then wrong_usage ∷ [] else [] in
    let w = fs_loadfile o.calls s (argv 1) 0 in
    let size = size_of o.junk (o.listing (fs_chdir o.calls s (b'.' ∷ []))) (argv 1) in
    let stops : Done = (s, usage ++ panics (as_int w), failed) in
    let shows : Done = (s, usage ++ characters (rounds size) o.mem w, success) in
    if shell_panic (as_int w) then stops else shows

-- The boot sector of the first partition of that number.
load_partition : (num : ℕ) → List PartProps → List Act
load_partition num [] = []
load_partition num (p ∷ ps) =
    let later = load_partition num ps in
    if p.name == num then disk_read 0x7c00 p.st_lba ∷ [] else later

-- `load -s`: IDE_ERR_IO_ERROR is -1, DISK_READ_ERR is -8.
load_sector : Outside → (load_mem lba : ℕ) → List Act
load_sector o mem lba =
    disk_read mem lba
    ∷ (elim (o.read mem lba) [ pos n ↦ [] | negsuc n ↦ if n == 0 then panics (negsuc 7) else [] ]
        ++ (if lba == 0 then real_mode ∷ [] else []))

-- `load -f`
load_file : Outside → Fs → (name : List ℕ) → (load_mem : ℕ) → Done
load_file o s name mem =
    let w = as_int (fs_loadfile o.calls s name mem) in
    (s, panics w, if shell_panic w then failed else success)

-- `argv[1]` behind `strcat`: the strings are taken to be apart, or the second behind the first.
pub cmd_load : Outside → Fs → List PartProps → (argv : ℕ → List ℕ) → Done
unfolding number load_partition load_sector load_file
cmd_load o s ps argv =
    let c = argv 1 in
    let d = rest (c ++ argv 2) in
    let mem = number o.junk (argv 3) in
    let part : Done = (s, load_partition (number o.junk (rest c)) ps, success) in
    let sector : Done = (s, load_sector o mem (number o.junk (rest d)), success) in
    let wrong : Done = (s, wrong_usage ∷ [], success) in
    if first c == b'p'
    then part
    else if first c == b'-'
    then if first d == b's'
      then sector
      else if first d == b'f'
      then load_file o s (rest d) mem
      else wrong
    else (s, [], success)

-- What `fs_loadfile` returns is registered, an error code too.
pub cmd_ldmod : Outside → Fs → (argv : ℕ → List ℕ) → Done
cmd_ldmod o s argv =
    let w = fs_loadfile o.calls s (argv 1) (number o.junk (argv 2)) in
    let (ret, s') = register_module o.mem s w in
    (s', panics ret, if shell_panic ret then failed else unset)
