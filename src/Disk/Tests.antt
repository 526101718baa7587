-- ===== src/Disk/Tests.antt =====
-- diskio.c on a disk with an extended partition at sector 100, which holds two logical partitions.
use janus.Base.{ℕ, ◌≡◌, refl, some, [], ◌∷◌, ◌++◌, ◌==◌, if◌then◌else◌, arith}
use janus.Base.Int.{ℤ, pos, negsuc}
use janus.Memory.{Mem}
use janus.Memory.Read.{le}
use janus.Disk.{
  Entry, BootSector, Scan, entry, boot_sector, get_boot_sector, traverse_extended_partitions,
}
use janus.Disk.Primary.{numbered}
use janus.Disk.Chain.{Readable, logical, get_boot_sector_lem, traverse_extended_partitions_lem}

-- The first sector of the chain: entry 0 of type 0x83 from sector 1 on, entry 1 of type 5 at 50.
abbrev first_bytes : Mem
first_bytes p =
    if p == 450
    then 0x83
    else if p == 454
    then 1
    else if p == 466
    then 5
    else if p == 470
    then 50
    else if p == 510
    then 0x55
    else if p == 511
    then 0xaa
    else 0

-- The second: entry 0 of type 0x0b from sector 2 on.
abbrev second_bytes : Mem
second_bytes p =
    if p == 450
    then 0x0b
    else if p == 454
    then 2
    else if p == 510
    then 0x55
    else if p == 511
    then 0xaa
    else 0

abbrev disk : ℕ → ℕ → ℤ × Mem
disk drive lba =
    if lba == 100
    then (pos 1, first_bytes)
    else if lba == 150
    then (pos 1, second_bytes)
    else (negsuc 0, λ p. 0)

abbrev nothing : Entry
nothing = record {
  active = 0;
  start_head = 0;
  ssc1 = 0;
  ssc2 = 0;
  type = 0;
  end_head = 0;
  esc1 = 0;
  esc2 = 0;
  start_lba = 0;
  num_sec = 0;
}

-- Entry 1 is a second extended partition.
abbrev mbr : BootSector
mbr = record {
  part0 = record nothing { type = 5; start_lba = 100 };
  part1 = record nothing { type = 0x0f; start_lba = 900 };
  part2 = nothing;
  part3 = nothing;
  signature = 0xaa55;
}

abbrev blank : BootSector
blank = record mbr { part0 = nothing; part1 = nothing; signature = 0 }

abbrev start : Scan
start = record { bslist = mbr; temp = blank; partitions = []; part_in = 1; current_lba = 0 }

abbrev first : BootSector
first = boot_sector first_bytes

abbrev second : BootSector
second = boot_sector second_bytes

chain_Readable : Readable disk blank 0 100 100 first (second ∷ [])
unfolding boot_sector entry le
chain_Readable = (refl, refl, refl, (λ e. omega (arith, e)), (refl, refl, refl, refl))

get_boot_sector_lem_example :
    (s' : Scan) × (get_boot_sector disk blank 2 start 100 100 0 ≡ some s')
    × (s'.partitions ≡ [] ++ numbered 1 (logical disk blank 0 100 100 first (second ∷ [])))
    × (s'.temp ≡ second)
get_boot_sector_lem_example =
    get_boot_sector_lem disk blank 0 100 2 start 100 first (second ∷ []) chain_Readable
      (omega arith)

traverse_extended_partitions_lem_example :
    (s' : Scan) × (traverse_extended_partitions disk blank 2 start 0 ≡ some s')
    × (s'.partitions ≡ [] ++ numbered 1 (logical disk blank 0 100 100 first (second ∷ [])))
unfolding boot_sector entry
traverse_extended_partitions_lem_example =
    traverse_extended_partitions_lem disk blank 0 100 2 start first (second ∷ []) refl refl
      chain_Readable (omega arith) refl refl
