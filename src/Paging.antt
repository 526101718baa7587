-- ===== src/Paging.antt =====
-- src/mm/pageinit.c: the page directory and the page tables. Memory is 32-bit words by byte
-- address. `mem_init` loads CR3 with the table's address and sets the paging bit.
pub mod Fill
pub mod Mapped
mod Tests
use Prim.Native.Nat.{bit_or}
use janus.Base.{ℕ, zero, suc, ◌+◌, ◌/◌, ◌%◌, ◌^◌, ◌==◌, if◌then◌else◌}

abbrev pub Words : Type 0
Words = ℕ → ℕ

unfoldable pub put : Words → ℕ → ℕ → Words
put m p v a = if a == p then v else m a

abbrev pub mem_size : ℕ
mem_size = 134217728

abbrev pub page_table_addr : ℕ
page_table_addr = 0x01000000

abbrev pub page_present : ℕ
page_present = 1

abbrev pub page_read_write : ℕ
page_read_write = 2

abbrev pub pg_offset : ℕ
pg_offset = 0x1000

-- `for (; i--; entry += pg_offset) *(kptr++) = entry`: the words and `kptr` afterwards.
pub fill : ℕ → Words → (kptr entry : ℕ) → Words × ℕ
fill zero m p entry = (m, p)
fill (suc i) m p entry = fill i (put m p entry) (p + 4) ((entry + pg_offset) % 2 ^ 32)

-- `for (; kptr & 0xfff;) *(kptr++) = 0`. A page has 1024 words, so that fuel is enough.
pub pad : ℕ → Words → (kptr : ℕ) → Words × ℕ
pad zero m p = (m, p)
pad (suc fuel) m p =
    let rest = pad fuel (put m p 0) (p + 4) in if p % 4096 == 0 then (m, p) else rest

abbrev pub pg_frames : ℕ
pg_frames = mem_size / 2 ^ 12

-- `pg_frames >> 10 + 1`: the shift is by 11.
abbrev pub pg_tables : ℕ
pg_tables = pg_frames / 2 ^ (10 + 1)

abbrev pub pg_dir_entry : ℕ
pg_dir_entry = bit_or (bit_or (bit_or pg_offset page_present) page_read_write) page_table_addr

abbrev pub pg_table_entry : ℕ
pg_table_entry = bit_or page_present page_read_write

-- With the numbers of directory entries and of frames as arguments.
pub build : (tables frames : ℕ) → Words → Words
build tables frames m =
    let (m1, p1) = fill tables m page_table_addr pg_dir_entry in
    let (m2, p2) = pad 1025 m1 p1 in
    let (m3, p3) = fill frames m2 p2 pg_table_entry in let (m4, p4) = pad 1025 m3 p3 in m4

pub page_init : Words → Words
page_init m = build pg_tables pg_frames m

-- The control registers that `mem_init` writes.
pub record Control : Type 0 where
  pub cr0 : ℕ
  pub cr3 : ℕ

pub mem_init : Words → Control → Words × Control
unfolding page_init
mem_init m c = (page_init m, record { cr0 = bit_or c.cr0 0x80000000; cr3 = page_table_addr })
