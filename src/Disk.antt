-- ===== src/Disk.antt =====
-- drivers/diskio.c and include/diskio.h: the scan for partitions. A sector is read by a call of
-- `read_sector`, here the argument `read`: its return code and what the buffer holds behind it.
pub mod Primary
pub mod Chain
mod Tests
use janus.Base.{
  ℕ, zero, suc, ◌+◌, ◌-◌, ◌*◌, ◌/◌, ◌%◌, ◌^◌, Bool, true, false, ◌||◌, Option, none, some, List, [],
  ◌∷◌, ◌++◌, ◌==◌, if◌then◌else◌, ltb, ◌>>=◌,
}
use janus.Base.Int.{ℤ, pos, negsuc}
use janus.Memory.{Mem}
use janus.Memory.Read.{le, chars}

-- `struct partition_entry`, the 16 bytes of an entry of a partition table.
pub record Entry : Type 0 where
  pub active : ℕ
  pub start_head : ℕ
  pub ssc1 : ℕ
  pub ssc2 : ℕ
  pub type : ℕ
  pub end_head : ℕ
  pub esc1 : ℕ
  pub esc2 : ℕ
  pub start_lba : ℕ
  pub num_sec : ℕ

-- `struct bootsector` without the 446 bytes that are skipped and the link, which nothing reads.
pub record BootSector : Type 0 where
  pub part0 : Entry
  pub part1 : Entry
  pub part2 : Entry
  pub part3 : Entry
  pub signature : ℕ

-- `struct part_props`. What the code does not write in a fresh node is `none`.
pub record PartProps : Type 0 where
  pub name : ℕ
  pub type_byte : Option ℕ
  pub type_text : Option (List ℕ)
  pub st_lba : ℕ
  pub part_size : ℕ

-- The globals. `partitions` is the list from `partition` on without the node at its end, which
-- `part_temp` points at and which is not filled yet.
pub record Scan : Type 0 where
  pub bslist : BootSector
  pub temp : BootSector
  pub partitions : List PartProps
  pub part_in : ℕ
  pub current_lba : ℕ

pub entry : Mem → (p : ℕ) → Entry
entry m p = record {
  active = m p;
  start_head = m (p + 1);
  ssc1 = m (p + 2);
  ssc2 = m (p + 3);
  type = m (p + 4);
  end_head = m (p + 5);
  esc1 = m (p + 6);
  esc2 = m (p + 7);
  start_lba = le 4 m (p + 8);
  num_sec = le 4 m (p + 12);
}

pub boot_sector : Mem → BootSector
boot_sector buf = record {
  part0 = entry buf (446 + 0 * 16);
  part1 = entry buf (446 + 1 * 16);
  part2 = entry buf (446 + 2 * 16);
  part3 = entry buf (446 + 3 * 16);
  signature = le 2 buf 510;
}

-- What is copied to `type`: "Unknown", "DOS_FAT12", "DOS3_FAT16", "DOS3_Extended", "DOS4_FAT16", "NTFS", "FAT32", "FAT16",
-- "Win95_Ext", "Lin Swap", "LINUX", "Linux Ext", "BSD_386", "OpenBSD" and "NetBSD".
abbrev pub type_name : (type : ℕ) → Option (List ℕ)
type_name t =
    if t == 0x00
    then some (85 ∷ 110 ∷ 107 ∷ 110 ∷ 111 ∷ 119 ∷ 110 ∷ [])
    else if t == 0x01
    then some (68 ∷ 79 ∷ 83 ∷ 95 ∷ 70 ∷ 65 ∷ 84 ∷ 49 ∷ 50 ∷ [])
    else if t == 0x04
    then some (68 ∷ 79 ∷ 83 ∷ 51 ∷ 95 ∷ 70 ∷ 65 ∷ 84 ∷ 49 ∷ 54 ∷ [])
    else if t == 0x05
    then some (68 ∷ 79 ∷ 83 ∷ 51 ∷ 95 ∷ 69 ∷ 120 ∷ 116 ∷ 101 ∷ 110 ∷ 100 ∷ 101 ∷ 100 ∷ [])
    else if t == 0x06
    then some (68 ∷ 79 ∷ 83 ∷ 52 ∷ 95 ∷ 70 ∷ 65 ∷ 84 ∷ 49 ∷ 54 ∷ [])
    else if t == 0x07
    then some (78 ∷ 84 ∷ 70 ∷ 83 ∷ [])
    else if t == 0x0b
    then some (70 ∷ 65 ∷ 84 ∷ 51 ∷ 50 ∷ [])
    else if t == 0x0c
    then some (70 ∷ 65 ∷ 84 ∷ 51 ∷ 50 ∷ [])
    else if t == 0x0e
    then some (70 ∷ 65 ∷ 84 ∷ 49 ∷ 54 ∷ [])
    else if t == 0x0f
    then some (87 ∷ 105 ∷ 110 ∷ 57 ∷ 53 ∷ 95 ∷ 69 ∷ 120 ∷ 116 ∷ [])
    else if t == 0x82
    then some (76 ∷ 105 ∷ 110 ∷ 32 ∷ 83 ∷ 119 ∷ 97 ∷ 112 ∷ [])
    else if t == 0x83
    then some (76 ∷ 73 ∷ 78 ∷ 85 ∷ 88 ∷ [])
    else if t == 0x85
    then some (76 ∷ 105 ∷ 110 ∷ 117 ∷ 120 ∷ 32 ∷ 69 ∷ 120 ∷ 116 ∷ [])
    else if t == 0x93
    then some (76 ∷ 73 ∷ 78 ∷ 85 ∷ 88 ∷ [])
    else if t == 0xa5
    then some (66 ∷ 83 ∷ 68 ∷ 95 ∷ 51 ∷ 56 ∷ 54 ∷ [])
    else if t == 0xa6
    then some (79 ∷ 112 ∷ 101 ∷ 110 ∷ 66 ∷ 83 ∷ 68 ∷ [])
    else if t == 0xa9
    then some (78 ∷ 101 ∷ 116 ∷ 66 ∷ 83 ∷ 68 ∷ [])
    else if t == 0xc2
    then some (76 ∷ 73 ∷ 78 ∷ 85 ∷ 88 ∷ [])
    else none

abbrev pub is_linux : ℕ → Bool
is_linux t = (t == 0x93) || (t == 0x83)

abbrev pub is_fat32 : ℕ → Bool
is_fat32 t = (t == 0x0c) || (t == 0x0b)

-- `type` begins at 5 and `st_lba` at 16, with `part_size` behind it: "DOS3_Extended" reaches into
-- `st_lba`, which is written later. What `type` holds then is the 11 characters before `st_lba` and
-- the bytes of the two numbers up to the first NUL, which is the last at the latest.
abbrev number_bytes : (st_lba part_size : ℕ) → Mem
number_bytes st_lba part_size i =
    if ltb i 4 then st_lba / 256 ^ i % 256 else part_size / 256 ^ (i - 4) % 256

overrun_text : (st_lba part_size : ℕ) → List ℕ
unfolding chars
overrun_text st_lba part_size =
    (68 ∷ 79 ∷ 83 ∷ 51 ∷ 95 ∷ 69 ∷ 120 ∷ 116 ∷ 101 ∷ 110 ∷ 100 ∷ [])
    ++ chars 8 (number_bytes st_lba part_size) 0

-- The node that `save_part_props` fills.
pub part_props : (name : ℕ) → Entry → (lba : ℕ) → PartProps
unfolding overrun_text
part_props n pe lba =
    let st_lba = (lba + pe.start_lba) % 2 ^ 32 in
    let part_size = pe.num_sec / 2048 in
    record {
      name = n;
      type_byte = if is_linux pe.type || is_fat32 pe.type then some pe.type else none;
      type_text =
          if pe.type == 0x05 then some (overrun_text st_lba part_size) else type_name pe.type;
      st_lba = st_lba;
      part_size = part_size;
    }

-- `part_in` is an int that starts at 1 and does not come near its end.
pub save_part_props : Scan → Entry → (lba : ℕ) → Scan
unfolding part_props
save_part_props s pe lba = record s {
  partitions = s.partitions ++ part_props s.part_in pe lba ∷ [];
  part_in = s.part_in + 1;
  current_lba = if is_linux pe.type then (lba + pe.start_lba) % 2 ^ 32 else s.current_lba;
}

pub traverse_primary_partitions : Scan → Scan
unfolding save_part_props
traverse_primary_partitions s =
    if s.bslist.signature == 0xaa55
    then save_part_props
        (save_part_props (save_part_props (save_part_props s s.bslist.part0 0) s.bslist.part1 0)
          s.bslist.part2 0)
        s.bslist.part3 0
    else s

abbrev pub is_extended : ℕ → Bool
is_extended t = (t == 0x05) || (t == 0x0f) || (t == 0x85)

-- The return codes of `read_sector` that the scan tests: IDE_ERR_IO_ERROR, -1, and
-- IDE_ERR_NOERROR, 1.
abbrev pub is_io_error : ℤ → Bool
is_io_error (negsuc zero) = true
is_io_error c = false

abbrev pub is_no_error : ℤ → Bool
is_no_error (pos (suc zero)) = true
is_no_error c = false

-- A fresh node of the heap that the code leaves without
-- its fields is the argument `garbage`.
module _ (read : (drive lba : ℕ) → ℤ × Mem) (garbage : BootSector) where
  pub read_mbr : Scan → (drive : ℕ) → Scan
  read_mbr s drive =
      let (code, buf) = read drive 0 in
      record s { bslist = if is_io_error code then garbage else boot_sector buf }

  -- The recursion over the chain of boot sectors, with fuel; `none` is that it ran out.
  pub get_boot_sector : (fuel : ℕ) → Scan → (lba extlba drive : ℕ) → Option Scan
  get_boot_sector zero s lba extlba drive = none
  get_boot_sector (suc fuel) s lba extlba drive =
      let (code, buf) = read drive lba in
      let sector = boot_sector buf in
      let s1 : Scan = record s { temp = sector } in
      let s2 = save_part_props s1 sector.part0 lba in
      let rest =
        get_boot_sector fuel s2 ((sector.part1.start_lba + extlba) % 2 ^ 32) extlba drive in
      if is_no_error code
      then if sector.signature == 0xaa55
        then if sector.part1.type == 0 then some s2 else rest
        else some s1
      else some (record s { temp = garbage })

  pub check_if_extended : (fuel : ℕ) → Scan → Entry → (drive : ℕ) → Option Scan
  unfolding get_boot_sector
  check_if_extended fuel s pe drive =
      if is_extended pe.type then get_boot_sector fuel s pe.start_lba pe.start_lba drive else some s

  -- Each entry is taken from `temp` as it is then, which `get_boot_sector` moves.
  pub traverse_extended_partitions : (fuel : ℕ) → Scan → (drive : ℕ) → Option Scan
  unfolding check_if_extended
  traverse_extended_partitions fuel s drive =
      check_if_extended fuel (record s { temp = s.bslist }) s.bslist.part0 drive
      >>= (λ s1. check_if_extended fuel s1 s1.temp.part1 drive)
      >>= (λ s2. check_if_extended fuel s2 s2.temp.part2 drive)
      >>= (λ s3. check_if_extended fuel s3 s3.temp.part3 drive)

  scan_drives : (fuel : ℕ) → Scan → (drive count : ℕ) → Option Scan
  unfolding traverse_extended_partitions
  scan_drives fuel s drive zero = some s
  scan_drives fuel s drive (suc count) =
      traverse_extended_partitions fuel (traverse_primary_partitions (read_mbr s drive)) drive
      >>= (λ s'. scan_drives fuel s' (drive + 1) count)

  pub read_disk_partitions : (fuel : ℕ) → Scan → (num_ide_drives : ℕ) → Option Scan
  unfolding scan_drives
  read_disk_partitions fuel s n = scan_drives fuel (record s { partitions = []; part_in = 1 }) 0 n
