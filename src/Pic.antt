-- ===== src/Pic.antt =====
-- drivers/8259.c: the interrupt mask that the kernel keeps and the bytes sent to the two chips.
pub mod Masks
mod Tests
use Prim.Native.Nat.{bit_and, bit_or}
use janus.Base.{ℕ, ◌+◌, ◌-◌, ◌/◌, ◌%◌, ◌^◌, List, [], ◌∷◌, ◌++◌, leb, ◌==◌, if◌then◌else◌}
use janus.Io.{Event, outb, print, Trace}

-- `irq_mask`, an `unsigned int` that starts as 0xFFFF, and what was sent.
pub record Pic : Type 0 where
  pub irq_mask : ℕ
  pub trace : Trace

-- `~x` of a 32-bit word.
abbrev pub inverse : ℕ → ℕ
inverse x = 2 ^ 32 - 1 - x

-- The two writes that end both functions: low byte to the master, next byte to the slave.
abbrev pub send_mask : Pic → Trace
send_mask p =
    p.trace
    ++ outb 0x21 (bit_and p.irq_mask 0xff) ∷ outb 0xa1 (bit_and (p.irq_mask / 2 ^ 8) 0xff) ∷ []

abbrev pub cleared : ℕ → ℕ → ℕ
cleared mask n = bit_and mask (inverse (2 ^ n))

pub enable_irq : Pic → ℕ → Pic
enable_irq p irq_no =
    let m1 = cleared p.irq_mask irq_no in
    let m2 = if leb 8 irq_no then cleared m1 2 else m1 in
    let p' = record p { irq_mask = m2 } in record p' { trace = send_mask p' }

pub disable_irq : Pic → ℕ → Pic
disable_irq p irq_no =
    let m1 = bit_or p.irq_mask (2 ^ irq_no) in
    let m2 = if bit_and m1 0xff00 == 0xff00 then bit_or m1 (2 ^ 2) else m1 in
    let p' = record p { irq_mask = m2 } in record p' { trace = send_mask p' }

-- "8259 initialising" and "8259 initialised"; the wait for a key between them and after is the
-- keyboard's.
abbrev pub initialising : List ℕ
initialising =
    56 ∷ 50 ∷ 53 ∷ 57 ∷ 32 ∷ 105 ∷ 110 ∷ 105 ∷ 116 ∷ 105 ∷ 97 ∷ 108 ∷ 105 ∷ 115 ∷ 105 ∷ 110 ∷ 103
    ∷ []

abbrev pub initialised : List ℕ
initialised =
    56 ∷ 50 ∷ 53 ∷ 57 ∷ 32 ∷ 105 ∷ 110 ∷ 105 ∷ 116 ∷ 105 ∷ 97 ∷ 108 ∷ 105 ∷ 115 ∷ 101 ∷ 100 ∷ []

pub init8259 : Pic → Pic
init8259 p = record p {
  trace =
      p.trace
      ++ print initialising
        ∷ outb 0x20 0x11
        ∷ outb 0xa0 0x11
        ∷ outb 0x21 0x68
        ∷ outb 0xa1 0x70
        ∷ outb 0x21 (2 ^ 2)
        ∷ outb 0xa1 2
        ∷ outb 0x21 1
        ∷ outb 0xa1 1
        ∷ outb 0x21 0xff
        ∷ outb 0xa1 0xff
        ∷ print initialised
        ∷ [];
}
