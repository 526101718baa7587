-- ===== src/Ide.antt =====
-- drivers/hd.c: the IDE driver. What `inportb(IDE_STATUS)` returns is a list, a byte for each call,
-- what `inportw(IDE_DATA_PORT)` returns another; the bytes sent are a trace. The data words that
-- `write_sector` sends are left out of it.
pub mod Transfer
mod Tests
use janus.Base.{
  ℕ, zero, suc, ◌+◌, ◌*◌, ◌/◌, ◌%◌, ◌^◌, Bool, true, false, not, Option, none, some, List, [], ◌∷◌,
  ◌++◌, ◌==◌, if◌then◌else◌, bit_and, bit_or, ◌>>=◌, get_or,
}
use janus.Base.Int.{ℤ, pos, negsuc}
use janus.Io.{Event, outb, Trace}

-- What the ports still deliver, and what was sent.
pub record Bus : Type 0 where
  pub statuses : List ℕ
  pub words : List ℕ
  pub trace : Trace

-- LBA_LOW_BYTE, LBA_HIGH_BYTE, LBA_EXTENDED_LOW_BYTE and LBA_EXTENDED_HIGH_BYTE.
abbrev pub lba_low_byte : ℕ → ℕ
lba_low_byte x = x % 256

abbrev pub lba_high_byte : ℕ → ℕ
lba_high_byte x = x / 2 ^ 8 % 256

abbrev pub lba_extended_low_byte : ℕ → ℕ
lba_extended_low_byte x = x / 2 ^ 16 % 256

abbrev pub lba_extended_high_byte : ℕ → ℕ
lba_extended_high_byte x = x / 2 ^ 24 % 256 % 16

-- The drive is selected only for the numbers 0 and 1.
abbrev pub drive_head : (drive_num lba : ℕ) → Trace
drive_head zero lba = outb 0x1f6 (bit_or 0xe0 (lba_extended_high_byte lba)) ∷ []
drive_head (suc zero) lba = outb 0x1f6 (bit_or 0xf0 (lba_extended_high_byte lba)) ∷ []
drive_head (suc (suc n)) lba = []

-- The command block registers, up to the command.
pub command_block : (drive_num lba num_sectors command : ℕ) → Trace
command_block drive_num lba num_sectors command =
    outb 0x1f2 (num_sectors % 256)
    ∷ outb 0x1f3 (lba_low_byte lba)
    ∷ outb 0x1f4 (lba_high_byte lba)
    ∷ outb 0x1f5 (lba_extended_low_byte lba)
    ∷ (drive_head drive_num lba ++ outb 0x1f7 command ∷ [])

-- IDE_STATUS_BUSY and IDE_STATUS_ERROR
abbrev pub is_busy : ℕ → Bool
is_busy status = not (bit_and status 0x80 == 0)

abbrev pub is_error : ℕ → Bool
is_error status = not (bit_and status 0x01 == 0)

-- The loop that waits for the drive: the status bytes behind the first that is not busy.
pub wait : List ℕ → Option (List ℕ)
wait [] = none
wait (st ∷ sts) = let rest = wait sts in if is_busy st then rest else some sts

-- `inportb`, once.
abbrev pub next : List ℕ → Option (ℕ × List ℕ)
next [] = none
next (st ∷ sts) = some (st, sts)

-- `n` words from the data port.
pub read_words : (n : ℕ) → List ℕ → Option (List ℕ × List ℕ)
read_words zero ws = some ([], ws)
read_words (suc n) [] = none
read_words (suc n) (w ∷ ws) = read_words n ws >>= (λ r. some (w ∷ r.0, r.1))

-- The return code, the words in the buffer and the bus behind; `none` is that a port delivers no
-- more, on which the code waits for ever. The unsigned product that bounds the loop wraps. IDE_ERR_IO_ERROR is -1, IDE_ERR_NOERROR 1.
pub read_sector : Bus → (drive_num lba num_sectors : ℕ) → Option (ℤ × List ℕ × Bus)
unfolding wait read_words command_block
read_sector b drive_num lba num_sectors =
    let sent = b.trace ++ command_block drive_num lba num_sectors 0x20 in
    wait b.statuses >>= (λ sts. next sts) >>= (λ r.
      if is_error r.0
      then some (negsuc 0, [], record { statuses = r.1; words = b.words; trace = sent })
      else read_words (256 * num_sectors % 2 ^ 32) b.words
        >>= (λ ws. some (pos 1, ws.0, record { statuses = r.1; words = ws.1; trace = sent })))

pub write_sector : Bus → (drive_num lba num_sectors : ℕ) → Option (ℤ × Bus)
unfolding wait command_block
write_sector b drive_num lba num_sectors =
    let sent = b.trace ++ command_block drive_num lba num_sectors 0x30 in
    wait b.statuses >>= (λ sts. wait sts) >>= (λ sts. next sts) >>= (λ r. some (
      (if is_error r.0 then negsuc 0 else pos 1),
      record { statuses = r.1; words = b.words; trace = sent },
    ))

-- `ide_drive_info`: the words 1, 3, 6 and 5 of the answer.
pub record DriveInfo : Type 0 where
  pub num_cylinders : ℕ
  pub num_heads : ℕ
  pub num_sectors_per_track : ℕ
  pub num_bytes_per_sector : ℕ

pub drive_info : List ℕ → DriveInfo
drive_info buffer = record {
  num_cylinders = get_or buffer 1 0;
  num_heads = get_or buffer 3 0;
  num_sectors_per_track = get_or buffer 6 0;
  num_bytes_per_sector = get_or buffer 5 0;
}

abbrev pub select : (drive : ℕ) → ℕ
select drive = if drive == 0 then 0xe0 else 0xf0

-- One drive of `probe_ide_drives`: what it tells of itself, where it answers with data.
pub probe : Bus → (drive : ℕ) → Option (Option DriveInfo × Bus)
unfolding wait read_words drive_info
probe b drive =
    let sent = b.trace ++ outb 0x1f6 (select drive) ∷ outb 0x1f7 0xec ∷ [] in
    wait b.statuses >>= (λ sts. next sts) >>= (λ r.
      if bit_and r.0 0x08 == 0
      then wait r.1 >>= (λ sts. next sts) >>= (λ r'. some (
        none,
        record {
          statuses = r'.1;
          words = b.words;
          trace = sent ++ outb 0x1f1 0 ∷ outb 0x1f6 (select drive) ∷ outb 0x1f7 0xa1 ∷ [];
        },
      ))
      else read_words 256 b.words >>= (λ ws.
        some (some (drive_info ws.0), record { statuses = r.1; words = ws.1; trace = sent })))

abbrev counted : Option DriveInfo → ℕ
counted none = 0
counted (some d) = 1

-- `num_ide_drives` and the return code, 0 or IDE_ERR_DRIVE_NOT_FOUND, -1.
pub probe_ide_drives : Bus → Option (ℤ × ℕ × Option DriveInfo × Option DriveInfo × Bus)
unfolding probe
probe_ide_drives b = probe b 0 >>= (λ d0. probe d0.1 1 >>= (λ d1.
    let n = counted d0.0 + counted d1.0 in
    some ((if n == 0 then negsuc 0 else pos 0), n, d0.0, d1.0, d1.1)))

-- The diagnostics code is read and dropped.
pub init_ide : Bus → Option Bus
unfolding wait
init_ide b = wait b.statuses >>= (λ sts. wait sts) >>= (λ sts. some (record {
  statuses = sts;
  words = b.words;
  trace = b.trace ++ outb 0x3f6 0x06 ∷ outb 0x3f6 0x02 ∷ outb 0x1f7 0x90 ∷ [];
}))
