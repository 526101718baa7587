-- ===== src/Disk/Chain.antt =====
-- The chain of boot sectors of an extended partition.
use janus.Base.{
  ℕ, zero, suc, ◌+◌, ◌%◌, ◌^◌, ◌<◌, ◌≡◌, ◌≢◌, refl, sym, subst, ◌∙◌, true, false, some, List, [],
  ◌∷◌, ◌++◌, ◌==◌, length, arith,
}
use janus.Base.Int.{ℤ, pos}
use janus.Memory.{Mem}
use janus.Disk.{
  Entry, BootSector, Scan, boot_sector, part_props, save_part_props, is_extended, get_boot_sector,
  check_if_extended, traverse_extended_partitions,
}
use janus.Disk.Primary.{numbered, append-one}

module _ (read : (drive lba : ℕ) → ℤ × Mem) (garbage : BootSector) (drive extlba : ℕ) where
  -- A chain that can be read: from `lba` on each sector is read without an error and signed, its
  -- second entry leads to the next, and that of the last has type 0.
  abbrev pub Readable : (lba : ℕ) → BootSector → List BootSector → Type 0
  Readable lba b [] =
      ((read drive lba).0 ≡ pos 1)
      × (boot_sector (read drive lba).1 ≡ b)
      × (b.signature ≡ 0xaa55)
      × (b.part1.type ≡ 0)
  Readable lba b (c ∷ cs) =
      ((read drive lba).0 ≡ pos 1)
      × (boot_sector (read drive lba).1 ≡ b)
      × (b.signature ≡ 0xaa55)
      × (b.part1.type ≢ 0)
      × Readable ((b.part1.start_lba + extlba) % 2 ^ 32) c cs

  -- The first entry of each sector of the chain, with the sector it is relative to.
  abbrev pub logical : (lba : ℕ) → BootSector → List BootSector → List (Entry × ℕ)
  logical lba b [] = (b.part0, lba) ∷ []
  logical lba b (c ∷ cs) = (b.part0, lba) ∷ logical ((b.part1.start_lba + extlba) % 2 ^ 32) c cs

  abbrev pub last_of : BootSector → List BootSector → BootSector
  last_of b [] = b
  last_of b (c ∷ cs) = last_of c cs

  -- On a chain that can be read, fuel for its sectors is enough for `get_boot_sector`: it adds the
  -- logical partition of each sector, in the chain's order and with the next numbers, and leaves
  -- `temp` at the last sector.
  pub get_boot_sector_lem :
      (fuel : ℕ) (s : Scan) (lba : ℕ) (b : BootSector) (cs : List BootSector)
      → Readable lba b cs
      → length cs < fuel
      → (s' : Scan) × (get_boot_sector read garbage fuel s lba extlba drive ≡ some s')
        × (s'.partitions ≡ s.partitions ++ numbered s.part_in (logical lba b cs))
        × (s'.temp ≡ last_of b cs)
  unfolding get_boot_sector numbered save_part_props part_props
  get_boot_sector_lem zero s lba b cs r h = absurd (omega (arith, h))
  get_boot_sector_lem (suc fuel) s lba b [] (ok, e, sign, stop) h =
      let good : (b.signature == 0xaa55) ≡ true = ground arith in
      let end : (b.part1.type == 0) ≡ true = ground arith in
      (save_part_props (record s { temp = b }) b.part0 lba, rw (ok, e, good, end) refl, refl, refl)
  get_boot_sector_lem (suc fuel) s lba b (c ∷ cs) (ok, e, sign, go, r) h =
      let s1 : Scan = save_part_props (record s { temp = b }) b.part0 lba in
      let next = (b.part1.start_lba + extlba) % 2 ^ 32 in
      let (s', run, ps, t) = get_boot_sector_lem fuel s1 next c cs r (omega (arith, h)) in
      let good : (b.signature == 0xaa55) ≡ true = ground arith in
      let ne : (b.part1.type == 0) ≡ false = ground arith in
      (
        s',
        rw (ok, e, good, ne) run,
        ps ∙ append-one s.partitions (part_props s.part_in b.part0 lba) _,
        t,
      )

  last_stops :
      (lba : ℕ) (b : BootSector) (cs : List BootSector)
      → Readable lba b cs
      → is_extended (last_of b cs).part1.type ≡ false
  last_stops lba b [] (ok, e, sign, stop) = ground arith
  last_stops lba b (c ∷ cs) (ok, e, sign, go, r) =
      last_stops ((b.part1.start_lba + extlba) % 2 ^ 32) c cs r

  -- Entry 0 of the MBR is an extended partition with a chain that can be read, and the last sector
  -- of the chain has no extended partition in its entries 2 and 3. Then `traverse_extended_partitions` adds the partitions of
  -- that chain and no others, whatever the entries 1 to 3 of the MBR are.
  pub traverse_extended_partitions_lem :
      (fuel : ℕ) (s : Scan) (b : BootSector) (cs : List BootSector)
      → is_extended s.bslist.part0.type ≡ true
      → s.bslist.part0.start_lba ≡ extlba
      → Readable extlba b cs
      → length cs < fuel
      → is_extended (last_of b cs).part2.type ≡ false
      → is_extended (last_of b cs).part3.type ≡ false
      → (s' : Scan) × (traverse_extended_partitions read garbage fuel s drive ≡ some s')
        × (s'.partitions ≡ s.partitions ++ numbered s.part_in (logical extlba b cs))
  unfolding traverse_extended_partitions check_if_extended
  traverse_extended_partitions_lem fuel s b cs x l r h n2 n3 =
      let (s', run, ps, t) =
        get_boot_sector_lem fuel (record s { temp = s.bslist }) extlba b cs r h in
      let run' =
        subst
          (λ z.
            get_boot_sector read garbage fuel (record s { temp = s.bslist }) z z drive ≡ some s')
          (sym l) run in
      let n1 = last_stops extlba b cs r in (s', rw (x, run', t, n1, t, n2, t, n3) refl, ps)
