-- ===== src/Fat/Names.antt =====
-- The names of directory entries: `Check_char` and `Generate_Long_Name` of fat32.c.
use janus.Base.{
  ℕ, zero, suc, ◌+◌, ◌-◌, ◌*◌, ◌%◌, ◌^◌, Bool, true, false, ◌||◌, Option, none, some, List, [], ◌∷◌,
  ◌++◌, ◌==◌, if◌then◌else◌, bit_and,
}
use janus.Base.Int.{ℤ}
use janus.Memory.{Mem}
use janus.Disk.{is_io_error}
use janus.Fat.{FileProps, Fat, sector_of}

-- `Check_char`: the characters that one of a short name, or of a long one, adds.
abbrev pub short_char : ℕ → List ℕ
short_char c = if (c == 32) || (c == 0) then [] else c ∷ []

abbrev pub long_char : ℕ → List ℕ
long_char c = if c == 32 then 92 ∷ 32 ∷ [] else c ∷ []

pub short_chars : (n : ℕ) → Mem → (p : ℕ) → List ℕ
short_chars zero buf p = []
short_chars (suc n) buf p = short_char (buf p) ++ short_chars n buf (p + 1)

-- Every other byte.
pub long_chars : (n : ℕ) → Mem → (p : ℕ) → List ℕ
long_chars zero buf p = []
long_chars (suc n) buf p = long_char (buf p) ++ long_chars n buf (p + 2)

-- The name of a short entry at `p`, with a dot where there is an extension.
unfoldable pub short_name : Mem → (p : ℕ) → List ℕ
unfolding short_chars
short_name buf p =
    short_chars 8 buf p
    ++ ((if buf (p + 8) == 32 then [] else 46 ∷ []) ++ short_chars 3 buf (p + 8))

-- The 13 characters of a long entry at `p`: LDIR_Name1, LDIR_Name2 and LDIR_Name3.
unfoldable pub long_piece : Mem → (p : ℕ) → List ℕ
unfolding long_chars
long_piece buf p =
    long_chars 5 buf (p + 1) ++ (long_chars 6 buf (p + 14) ++ long_chars 2 buf (p + 28))

-- The string in an array that a NUL is written behind.
unfoldable pub before_nul : List ℕ → List ℕ
before_nul [] = []
before_nul (c ∷ cs) = if c == 0 then [] else c ∷ before_nul cs

-- The node `fat_temp` gets its name, and a fresh one comes behind it.
unfoldable pub push : Fat → (name : List ℕ) → (fresh : FileProps) → Fat
push s name fresh = record s {
  files = s.files ++ record s.last { filename = name } ∷ [];
  last = fresh;
  item_count = s.item_count + 1;
}

-- The state of the do loop of `Generate_Long_Name`: the buffer, `k`, `i`, `flag` and the name.
pub record LongName : Type 0 where
  pub buf : Mem
  pub k : ℕ
  pub i : ℕ
  pub crossed : Bool
  pub name : List ℕ

-- How it ends: without fuel, by a read error, or with the name.
pub data Gathered : Type 0 where
  no_fuel : Gathered
  read_error : Mem → Gathered
  gathered : LongName → Gathered

module _ (read : (drive lba : ℕ) → ℤ × Mem) (drive lba cluster : ℕ) (fresh : FileProps)
    (s : Fat) where
  -- The start of a round: before the first entry of a sector the sector before it is read.
  unfoldable pub previous_sector : LongName → Option LongName × Mem
  previous_sector g =
      let k' = (g.k + 2 ^ 32 - 1) % 2 ^ 32 in
      let (code, buf') = read drive (sector_of s lba cluster k') in
      if g.i == 0
      then if is_io_error code
        then (none, buf')
        else (some (record g { buf = buf'; k = k'; i = 16; crossed = true }), buf')
      else (some g, g.buf)

  unfoldable pub take_piece : LongName → LongName
  take_piece g = record g { i = g.i - 1; name = g.name ++ long_piece g.buf ((g.i - 1) * 32) }

  -- The rest of a round. 0x40 marks the last entry of a long name, which stands first.
  unfoldable pub round : (again : LongName → Gathered) → Option LongName × Mem → Gathered
  unfolding take_piece
  round again (none, buf') = read_error buf'
  round again (some g, buf') =
      let rest = again (take_piece g) in
      if bit_and (g.buf ((g.i - 1) * 32)) 0x40 == 0 then rest else gathered (take_piece g)

  unfoldable pub gather : (fuel : ℕ) → LongName → Gathered
  unfolding previous_sector round
  gather zero g = no_fuel
  gather (suc fuel) g = round (gather fuel) (previous_sector g)

  -- The end: where the loop left the sector, it is read again. Behind a read error the name is not
  -- closed and the node not passed on; the characters put there are not kept, since the next name
  -- starts over them.
  unfoldable pub finish_name : Gathered → Option (Mem × Fat)
  finish_name no_fuel = none
  finish_name (read_error buf') = some (buf', s)
  finish_name (gathered g) =
      let (code, again) = read drive (sector_of s lba cluster ((g.k + 1) % 2 ^ 32)) in
      if g.crossed
      then if is_io_error code
        then some (again, s)
        else some (again, push s (before_nul g.name) fresh)
      else some (g.buf, push s (before_nul g.name) fresh)

  -- The buffer behind the call, which is the caller's, and the state; `none` is that no entry ends
  -- the name within the fuel.
  unfoldable pub generate_long_name : (fuel : ℕ) → Mem → (i k : ℕ) → Option (Mem × Fat)
  unfolding gather finish_name
  generate_long_name fuel buf i k =
      finish_name (gather fuel (record { buf = buf; k = k; i = i; crossed = false; name = [] }))
