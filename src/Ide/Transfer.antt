-- ===== src/Ide/Transfer.antt =====
-- A transfer on a drive that is busy for a while.
use janus.Base.{
  ℕ, zero, suc, ◌+◌, ◌*◌, ◌/◌, ◌%◌, ◌^◌, ◌≤◌, ◌<◌, ◌≡◌, refl, Bool, true, false, ◌&&◌, some, List,
  [], ◌∷◌, ◌++◌, ◌==◌, if◌then◌else◌, bit_or, length, take, drop, arith,
}
use janus.Base.Bits.{all_below, all_below_sound}
use janus.Base.Int.{pos, negsuc}
use janus.Io.{outb, Trace}
use janus.Ide.{command_block, is_busy, is_error, wait, read_words, read_sector}

abbrev pub Busy : List ℕ → Type 0
Busy [] = Unit
Busy (st ∷ sts) = (is_busy st ≡ true) × Busy sts

wait-Busy :
    (busy : List ℕ) (ready : ℕ) (sts : List ℕ)
    → Busy busy
    → is_busy ready ≡ false
    → wait (busy ++ ready ∷ sts) ≡ some sts
unfolding wait
wait-Busy [] ready sts b r = rw r refl
wait-Busy (st ∷ busy) ready sts (b, bs) r = rw (b) (wait-Busy busy ready sts bs r)

read_words_lem :
    (n : ℕ) (ws : List ℕ) → n ≤ length ws → read_words n ws ≡ some (take n ws, drop n ws)
unfolding read_words
read_words_lem zero ws h = refl
read_words_lem (suc n) [] h = absurd (omega (arith, h))
read_words_lem (suc n) (w ∷ ws) h = rw (read_words_lem n ws (omega (arith, h))) refl

-- However long the drive is busy, `read_sector` returns where the data port has the words left: it
-- sends the command block and delivers the next words of the data port, 256 for a sector modulo
-- 2^32, where the status has no error bit, and else IDE_ERR_IO_ERROR with no word read.
pub read_sector_lem :
    (busy : List ℕ) (ready status : ℕ) (sts words : List ℕ) (t : Trace) (drive lba n : ℕ)
    → Busy busy
    → is_busy ready ≡ false
    → 256 * n % 2 ^ 32 ≤ length words
    → read_sector
        (record { statuses = busy ++ ready ∷ status ∷ sts; words = words; trace = t })
        drive
        lba
        n
      ≡ (if is_error status
          then some (
            negsuc 0,
            [],
            record { statuses = sts; words = words; trace = t ++ command_block drive lba n 0x20 },
          )
          else some (
            pos 1,
            take (256 * n % 2 ^ 32) words,
            record {
              statuses = sts;
              words = drop (256 * n % 2 ^ 32) words;
              trace = t ++ command_block drive lba n 0x20;
            },
          ))
unfolding read_sector
read_sector_lem busy ready status sts words t drive lba n b r h =
    rw (wait-Busy busy ready (status ∷ sts) b r, read_words_lem (256 * n % 2 ^ 32) words h) refl

-- What the drive takes the registers for: the sector, from the last byte sent to each.
abbrev pub register : (port : ℕ) → Trace → ℕ
register p [] = 0
register p (outb q v ∷ es) = if p == q then v else register p es
register p (e ∷ es) = register p es

abbrev pub sector_of : Trace → ℕ
sector_of t =
    register 0x1f3 t
    + 2 ^ 8 * register 0x1f4 t
    + 2 ^ 16 * register 0x1f5 t
    + 2 ^ 24 * (register 0x1f6 t % 16)

abbrev head_table : ℕ → Bool
head_table h =
    (bit_or 0xe0 h % 16 == h)
    && (bit_or 0xf0 h % 16 == h)
    && (bit_or 0xe0 h / 16 == 14)
    && (bit_or 0xf0 h / 16 == 15)

head_lem :
    (h : ℕ)
    → h < 16
    → (bit_or 0xe0 h % 16 ≡ h)
      × (bit_or 0xf0 h % 16 ≡ h)
      × (bit_or 0xe0 h / 16 ≡ 14)
      × (bit_or 0xf0 h / 16 ≡ 15)
unfolding all_below
head_lem h lt = let e = all_below_sound 16 head_table h refl lt in ground arith

-- The command block names the sector, below 2^28, and the drive, 0 or 1: the registers hold the
-- four parts of its number, and the drive is bit 4 of the head register under LBA mode.
command_block-sector_of :
    (drive lba n command : ℕ)
    → drive < 2
    → lba < 2 ^ 28
    → (sector_of (command_block drive lba n command) ≡ lba)
      × (register 0x1f6 (command_block drive lba n command) / 16 ≡ 14 + drive)
unfolding command_block
command_block-sector_of zero lba n command hd hl =
    let (a, b, c, d) = head_lem (lba / 2 ^ 24 % 256 % 16) (omega arith) in (omega (arith, a, hl), c)
command_block-sector_of (suc zero) lba n command hd hl =
    let (a, b, c, d) = head_lem (lba / 2 ^ 24 % 256 % 16) (omega arith) in (omega (arith, b, hl), d)
command_block-sector_of (suc (suc k)) lba n command hd hl = absurd (omega (arith, hd))
