-- ===== src/Fat/LongNames.antt =====
-- What `Generate_Long_Name` of fat32.c makes of the entries of a long name.
use janus.Base.{
  ℕ, zero, suc, ◌-◌, ◌*◌, ◌<◌, ◌≡◌, ◌≢◌, refl, ◌∙◌, ap, ap₂, true, false, some, List, [], ◌++◌,
  ◌==◌, bit_and, append_assoc, arith,
}
use janus.Base.Int.{ℤ}
use janus.Memory.{Mem}
use janus.Fat.{FileProps, Fat}
use janus.Fat.Names.{
  long_piece, before_nul, push, LongName, gathered, previous_sector, take_piece, round, gather,
  finish_name, generate_long_name,
}

-- Of the entries before entry `i`, from the last on, `n` have no mark and the one before them has the
-- mark 0x40 of a name's end; all are in the sector.
abbrev pub Marked : (n i : ℕ) → Mem → Type 0
Marked zero i buf = (0 < i) × (bit_and (buf ((i - 1) * 32)) 0x40 ≢ 0)
Marked (suc n) i buf = (0 < i) × (bit_and (buf ((i - 1) * 32)) 0x40 ≡ 0) × Marked n (i - 1) buf

-- Their parts of the name, from the last entry on.
abbrev pub parts : (n i : ℕ) → Mem → List ℕ
parts zero i buf = long_piece buf ((i - 1) * 32)
parts (suc n) i buf = long_piece buf ((i - 1) * 32) ++ parts n (i - 1) buf

module _ (read : (drive lba : ℕ) → ℤ × Mem) (drive lba cluster : ℕ) (fresh : FileProps)
    (s : Fat) where
  gather_lem :
      (fuel n i : ℕ) (g : LongName)
      → g.i ≡ i
      → Marked n i g.buf
      → n < fuel
      → gather read drive lba cluster fresh s fuel g
        ≡ gathered (record g { i = i - 1 - n; name = g.name ++ parts n i g.buf })
  unfolding gather round previous_sector take_piece
  gather_lem zero n i g e marked h = absurd (omega (arith, h))
  gather_lem (suc fuel) zero i g e (inside, mark) h =
      let here : (g.i == 0) ≡ false = ground (arith, e) in
      let end : (bit_and (g.buf ((i - 1) * 32)) 0x40 == 0) ≡ false = ground (arith, mark) in
      rw (here, e, end)
        (ap (λ j. gathered (record g { i = j; name = g.name ++ long_piece g.buf ((i - 1) * 32) }))
          (omega arith))
  gather_lem (suc fuel) (suc n) i g e (inside, plain, marked) h =
      let here : (g.i == 0) ≡ false = ground (arith, e) in
      let on : (bit_and (g.buf ((i - 1) * 32)) 0x40 == 0) ≡ true = ground (arith, plain) in
      rw (here, e, on)
        (gather_lem fuel n (i - 1)
            (record g { i = i - 1; name = g.name ++ long_piece g.buf ((i - 1) * 32) }) refl marked
            (omega (arith, h))
          ∙ ap₂ (λ j l. gathered (record g { i = j; name = l })) (omega arith)
              (append_assoc g.name (long_piece g.buf ((i - 1) * 32)) (parts n (i - 1) g.buf)))

  -- For a long name whose entries, up to the one with the mark 0x40, stand in one sector before
  -- entry `i`, and fuel for them, `generate_long_name` returns: the node gets the parts of the
  -- name put together from the entry before `i` on backwards, up to the first NUL, with a
  -- backslash before each space, and the buffer stays as it was.
  pub generate_long_name_lem :
      (fuel n i k : ℕ) (buf : Mem)
      → Marked n i buf
      → n < fuel
      → generate_long_name read drive lba cluster fresh s fuel buf i k
        ≡ some (buf, push s (before_nul (parts n i buf)) fresh)
  unfolding generate_long_name finish_name
  generate_long_name_lem fuel n i k buf marked h = ap (finish_name read drive lba cluster fresh s) (
      gather_lem fuel n i (record { buf = buf; k = k; i = i; crossed = false; name = [] }) refl
        marked h)
