-- ===== src/Elf/Tests.antt =====
-- The symbols of a small file.
use janus.Base.{◌≡◌, ◌==◌, some, [], ◌∷◌, if◌then◌else◌, arith}
use janus.Memory.{Mem}
use janus.Memory.Read.{le}
use janus.Elf.{read_symbol_table}
use janus.Elf.Symbols.{read_symbol_table_lem}

-- A section header at 100: a symbol table of two entries from byte 200 of the file on.
abbrev file : Mem
file a = if a == 104 then 2 else if a == 116 then 200 else if a == 120 then 32 else 0

read_symbol_table_lem_example : read_symbol_table 3 file 0 (100 ∷ []) ≡ some (200 ∷ 216 ∷ [])
unfolding le
read_symbol_table_lem_example =
    read_symbol_table_lem 3 file 0 (100 ∷ []) (omega arith, omega arith, tt)
