-- ===== src/Elf/Symbols.antt =====
-- When `read_symbol_table` of src/kernel/elf.c ends, and with which entries.
use janus.Base.{
  ℕ, zero, suc, ◌+◌, ◌-◌, ◌*◌, ◌/◌, ◌%◌, ◌^◌, ◌<◌, ◌≡◌, ◌≢◌, refl, ◌∙◌, ap, Bool, true, false, ◌&&◌,
  none, some, List, [], ◌∷◌, ◌++◌, ◌==◌, if◌then◌else◌, arith, inl, inr, Bool-cases,
}
use janus.Memory.{Mem}
use janus.Elf.{sh_offset, sh_size, has_symbols, section_symbols, read_symbol_table}

-- `n` entries of a section from entry `i` on.
abbrev pub symbols_at : (n i table : ℕ) → List ℕ
symbols_at zero i table = []
symbols_at (suc n) i table = (table + i * 16) ∷ symbols_at n (i + 1) table

section_symbols_lem :
    (fuel n table i : ℕ)
    → 16 * n < 2 ^ 32
    → n < fuel
    → section_symbols fuel table i (16 * n) ≡ some (symbols_at n i table)
unfolding section_symbols
section_symbols_lem zero n table i small h = absurd (omega (arith, h))
section_symbols_lem (suc fuel) zero table i small h = refl
section_symbols_lem (suc fuel) (suc n) table i small h =
    let more : (16 * suc n == 0) ≡ false = ground arith in
    let left : (16 * suc n + 2 ^ 32 - 16) % 2 ^ 32 ≡ 16 * n = omega (arith, small) in
    rw
      (
        more,
        left,
        section_symbols_lem fuel n table (i + 1) (omega (arith, small)) (omega (arith, h)),
      )
      refl

-- A size that is no multiple of 16 never comes to 0.
section_symbols-none :
    (fuel table i size : ℕ) → size % 16 ≢ 0 → section_symbols fuel table i size ≡ none
unfolding section_symbols
section_symbols-none zero table i size odd = refl
section_symbols-none (suc fuel) table i size odd =
    let more : (size == 0) ≡ false = ground (arith, odd) in
    let still : ((size + 2 ^ 32 - 16) % 2 ^ 32) % 16 ≢ 0 = λ e. odd (omega (arith, e)) in
    rw (more, section_symbols-none fuel table (i + 1) ((size + 2 ^ 32 - 16) % 2 ^ 32) still) refl

-- Each section with symbols has a size of whole entries.
abbrev pub whole : Mem → (elf_shdr : List ℕ) → Bool
whole m [] = true
whole m (shdr ∷ shdrs) =
    if has_symbols m shdr then (sh_size m shdr % 16 == 0) && whole m shdrs else whole m shdrs

-- The entries of these sections, one section after another.
abbrev pub all_symbols : Mem → (elf_ptr : ℕ) → (elf_shdr : List ℕ) → List ℕ
all_symbols m elf_ptr [] = []
all_symbols m elf_ptr (shdr ∷ shdrs) =
    if has_symbols m shdr
    then symbols_at (sh_size m shdr / 16) 0 (elf_ptr + sh_offset m shdr)
      ++ all_symbols m elf_ptr shdrs
    else all_symbols m elf_ptr shdrs

-- The sizes are words, and the fuel is enough for the entries of each section.
abbrev pub Fits : (fuel : ℕ) → Mem → (elf_shdr : List ℕ) → Type 0
Fits fuel m [] = Unit
Fits fuel m (shdr ∷ shdrs) =
    (sh_size m shdr < 2 ^ 32) × (sh_size m shdr / 16 < fuel) × Fits fuel m shdrs

section_symbols_cases :
    (fuel table size : ℕ)
    → size < 2 ^ 32
    → size / 16 < fuel
    → section_symbols fuel table 0 size
      ≡ (if size % 16 == 0 then some (symbols_at (size / 16) 0 table) else none)
section_symbols_cases fuel table size small h = elim (Bool-cases (size % 16 == 0)) [
  | inl e ↦
      let exact : size ≡ 16 * (size / 16) = ground (arith, e) in
      rw e (
        ap (section_symbols fuel table 0) exact
        ∙ section_symbols_lem fuel (size / 16) table 0 (omega (arith, small)) h)
  | inr e ↦ rw e (section_symbols-none fuel table 0 size (ground (arith, e)))
]

-- With fuel for the entries of each section `read_symbol_table` returns all entries of the
-- sections with symbols, one section after another, where the size of each is a multiple of 16;
-- else it does not return, however much more fuel it gets.
pub read_symbol_table_lem :
    (fuel : ℕ) (m : Mem) (elf_ptr : ℕ) (elf_shdr : List ℕ)
    → Fits fuel m elf_shdr
    → read_symbol_table fuel m elf_ptr elf_shdr
      ≡ (if whole m elf_shdr then some (all_symbols m elf_ptr elf_shdr) else none)
unfolding read_symbol_table
read_symbol_table_lem fuel m elf_ptr [] fits = refl
read_symbol_table_lem fuel m elf_ptr (shdr ∷ shdrs) (small, enough, fits) =
    let rest = read_symbol_table_lem fuel m elf_ptr shdrs fits in
    let here =
      section_symbols_cases fuel (elf_ptr + sh_offset m shdr) (sh_size m shdr) small enough in
    elim (Bool-cases (has_symbols m shdr)) [
      | inl s ↦ elim (Bool-cases (sh_size m shdr % 16 == 0)) [
        | inl e ↦ elim (Bool-cases (whole m shdrs)) [
          | inl w ↦ rw (s, here, rest, e, w) refl
          | inr w ↦ rw (s, here, rest, e, w) refl
        ]
        | inr e ↦ rw (s, here, e) refl
      ]
      | inr s ↦ rw (s, rest) refl
    ]
