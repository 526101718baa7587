-- ===== src/Elf.antt =====
-- src/kernel/elf.c: the tables of an ELF file at `elf_ptr`. What the functions named debug_ print and
-- the addresses that `kmalloc` returns are left out; a table of pointers is a list of addresses.
pub mod Symbols
mod Tests
use janus.Base.{
  ℕ, zero, suc, ◌+◌, ◌-◌, ◌*◌, ◌/◌, ◌%◌, ◌^◌, Bool, ◌&&◌, ◌||◌, Option, none, some, List, [], ◌∷◌,
  ◌++◌, ◌==◌, if◌then◌else◌, length, ◌>>=◌,
}
use janus.Memory.{Mem}
use janus.Memory.Read.{le}

-- ELF_SH_SIZE, ELF_STENTRY_SIZE and ELF_PH_SIZE.
abbrev pub elf_sh_size : ℕ
elf_sh_size = 40

abbrev pub elf_stentry_size : ℕ
elf_stentry_size = 16

abbrev pub elf_ph_size : ℕ
elf_ph_size = 32

-- The messages of `elf_print_error`.
pub data ElfError : Type 0 where
  invalid_file_format : ElfError
  unsupported_execution_format : ElfError
  unsupported_machine : ElfError
  invalid_version : ElfError

-- All checks are made, whatever the others say; nothing stops the load.
pub check_elf_header : Mem → (elf_ptr : ℕ) → List ElfError
check_elf_header m elf_ptr =
    let magic =
      (m elf_ptr == 0x7f)
      && ((m (elf_ptr + 1) == 69) && ((m (elf_ptr + 2) == 76) && (m (elf_ptr + 3) == 70))) in
    (if magic then [] else invalid_file_format ∷ [])
    ++ ((if le 2 m (elf_ptr + 16) == 2 then [] else unsupported_execution_format ∷ [])
        ++ ((if le 2 m (elf_ptr + 18) == 3 then [] else unsupported_machine ∷ [])
            ++ (if le 4 m (elf_ptr + 20) == 1 then [] else invalid_version ∷ [])))

-- The addresses of `n` entries of a table from entry `i` on.
pub table_entries : (n i : ℕ) → (table size : ℕ) → List ℕ
table_entries zero i table size = []
table_entries (suc n) i table size = (table + i * size) ∷ table_entries n (i + 1) table size

-- By e_shnum and e_shoff, and by e_phnum and e_phoff.
pub read_section_headers : Mem → (elf_ptr : ℕ) → List ℕ
unfolding table_entries
read_section_headers m elf_ptr =
    table_entries (le 2 m (elf_ptr + 48)) 0 (elf_ptr + le 4 m (elf_ptr + 32)) elf_sh_size

pub read_program_headers : Mem → (elf_ptr : ℕ) → List ℕ
unfolding table_entries
read_program_headers m elf_ptr =
    table_entries (le 2 m (elf_ptr + 44)) 0 (elf_ptr + le 4 m (elf_ptr + 28)) elf_ph_size

-- Fields of a section header.
abbrev pub sh_type : Mem → (shdr : ℕ) → ℕ
sh_type m shdr = le 4 m (shdr + 4)

abbrev pub sh_offset : Mem → (shdr : ℕ) → ℕ
sh_offset m shdr = le 4 m (shdr + 16)

abbrev pub sh_size : Mem → (shdr : ℕ) → ℕ
sh_size m shdr = le 4 m (shdr + 20)

-- The total of the string tables, a word; the table itself is never filled.
pub read_string_tables : Mem → (elf_shdr : List ℕ) → ℕ
read_string_tables m [] = 0
read_string_tables m (shdr ∷ shdrs) =
    let rest = read_string_tables m shdrs in
    if sh_type m shdr == 3 then (sh_size m shdr + rest) % 2 ^ 32 else rest

-- SHT_SYMTAB or SHT_DYNSYM
abbrev pub has_symbols : Mem → (shdr : ℕ) → Bool
has_symbols m shdr = (sh_type m shdr == 2) || (sh_type m shdr == 11)

-- The loop over the entries of a section, which stops where `tab_size`, taken down by the size of an
-- entry, comes to 0; `none` is that the fuel ran out.
unfoldable pub section_symbols : (fuel : ℕ) → (table tab_entry tab_size : ℕ) → Option (List ℕ)
section_symbols zero table tab_entry tab_size = none
section_symbols (suc fuel) table tab_entry tab_size =
    let rest =
      section_symbols fuel table (tab_entry + 1)
        ((tab_size + 2 ^ 32 - elf_stentry_size) % 2 ^ 32) in
    if tab_size == 0
    then some []
    else rest >>= (λ symbols. some ((table + tab_entry * elf_stentry_size) ∷ symbols))

unfoldable pub read_symbol_table :
    (fuel : ℕ) → Mem → (elf_ptr : ℕ) → (elf_shdr : List ℕ) → Option (List ℕ)
read_symbol_table fuel m elf_ptr [] = some []
read_symbol_table fuel m elf_ptr (shdr ∷ shdrs) =
    let rest = read_symbol_table fuel m elf_ptr shdrs in
    let symbols = section_symbols fuel (elf_ptr + sh_offset m shdr) 0 (sh_size m shdr) in
    if has_symbols m shdr then symbols >>= (λ xs. rest >>= (λ ys. some (xs ++ ys))) else rest

-- What `elf_load` has when it frees it all; `symtab_num` is the length of `elf_sym`.
pub record Tables : Type 0 where
  pub errors : List ElfError
  pub elf_shdr : List ℕ
  pub strtab_size : ℕ
  pub elf_sym : List ℕ
  pub elf_phdr : List ℕ

pub elf_load : (fuel : ℕ) → Mem → (elf_ptr : ℕ) → Option Tables
unfolding check_elf_header read_section_headers read_string_tables read_symbol_table
    read_program_headers
elf_load fuel m elf_ptr =
    let shdr = read_section_headers m elf_ptr in
    read_symbol_table fuel m elf_ptr shdr >>= (λ symbols. some (record {
      errors = check_elf_header m elf_ptr;
      elf_shdr = shdr;
      strtab_size = read_string_tables m shdr;
      elf_sym = symbols;
      elf_phdr = read_program_headers m elf_ptr;
    }))
