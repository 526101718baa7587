-- ===== src/Commands.antt =====
-- src/utils/shell_builtin.c: what its commands share, over the registry of file system drivers. A
-- string is its bytes without the NUL. `argv` gives the string at each entry of the table, those
-- behind `argc` too, of which the first is NULL, the string at address 0.
pub mod Help
pub mod Files
pub mod Drivers
pub mod Dump
pub mod Run
pub mod Typed
pub mod Rooted
mod Tests
use janus.Base.{
  ℕ, zero, suc, ◌+◌, ◌-◌, ◌^◌, Option, none, some, List, [], ◌∷◌, if◌then◌else◌, ltb, length,
  get_or,
}
use janus.Base.Int.{ℤ, pos, negsuc}
use janus.Memory.{Mem}
use janus.Str.{atoi}
use janus.Disk.{PartProps}
use janus.Fs.{Driver, Fs, Calls}
use janus.Shell.{shell_panic}

-- A node of `struct fs_properties`.
pub record FileProps : Type 0 where
  pub start : ℕ
  pub size : ℕ
  pub file_type : ℕ
  pub filename : List ℕ

-- What a command prints, by the kind of its message, and what it calls outside.
pub data Act : Type 0 where
  command_count : ℕ → Act
  command_name : (place : ℕ) → Act
  command_help : (place : ℕ) → Act
  command_not_found : List ℕ → Act
  partition_not_supported : Act
  file_name : List ℕ → Act
  file_line : FileProps → Act
  new_line : Act
  wrong_usage : Act
  partition_heading : Act
  partition_line : PartProps → Act
  character : ℕ → Act
  hex_byte : ℕ → Act
  blank : Act
  panic : (code : ℤ) → Act
  filesystem_not_supported : Act
  cannot_exec_line : List ℕ → Act
  driver_line : Driver → Act
  module_not_found : List ℕ → Act
  disk_read : (load_mem lba : ℕ) → Act
  real_mode : Act
  screen_cleared : Act
  rebooted : Act
  sent : Act
  received : Act

-- What is outside: the drivers, the list of nodes at an address, the memory once a file or a sector
-- was loaded, the result of `read_disk_sector`, and what is in a variable not set yet.
pub record Outside : Type 0 where
  pub calls : Calls
  pub listing : (fs_properties : ℕ) → List FileProps
  pub mem : Mem
  pub read : (load_mem lba : ℕ) → ℤ
  pub junk : ℕ

-- `return SUCCESS`, `return FAILURE`, or no `return` at the end.
pub data Status : Type 0 where
  success : Status
  failed : Status
  unset : Status

-- The registry after the command, what it did, and its status.
abbrev pub Done : Type 0
Done = Fs × List Act × Status

-- A word as an `int`.
abbrev pub as_int : ℕ → ℤ
as_int w = if ltb w (2 ^ 31) then pos w else negsuc (2 ^ 32 - 1 - w)

-- `shell_panic (w)`: the message, if there is one.
abbrev pub panics : ℤ → List Act
panics i = if shell_panic i then panic i ∷ [] else []

-- The string laid from address 0 on, behind it NULs.
abbrev pub text_at_0 : List ℕ → Mem
text_at_0 s i = get_or s i 0

abbrev pub value_of : Option ℕ → ℕ
value_of none = 0
value_of (some n) = n

-- `atoi` of a string; it does not run out of fuel for each of its bytes.
pub number : (junk : ℕ) → List ℕ → ℕ
number junk s = value_of (atoi (suc (length s)) (text_at_0 s) junk 0)

-- `*c`
abbrev pub first : List ℕ → ℕ
first [] = 0
first (c ∷ cs) = c

-- `c + 1`; behind the NUL of an empty string the bytes are not known.
abbrev pub rest : List ℕ → List ℕ
rest [] = []
rest (c ∷ cs) = cs

-- The bytes from `load_mem` on.
unfoldable pub characters : (n : ℕ) → Mem → (load_mem : ℕ) → List Act
characters zero m p = []
characters (suc n) m p = character (m p) ∷ characters n m (p + 1)
