-- ===== src/Serial.antt =====
-- drivers/serial.c: the transfer over the serial port, byte by byte. What the port and the keyboard
-- give in each round is an argument.
pub mod Lines
mod Tests
use janus.Base.{
  ℕ, ◌+◌, ◌%◌, Bool, true, false, Option, none, some, List, [], ◌∷◌, ◌++◌, ◌==◌, if◌then◌else◌,
  ◌>>=◌,
}
use janus.Io.{Event, outb, print, Trace}

-- PORT1
abbrev pub port1 : ℕ
port1 = 0x3f8

pub init_serial : Trace
init_serial =
    outb (port1 + 1) 0
    ∷ outb (port1 + 3) 0x80
    ∷ outb (port1 + 0) 0x03
    ∷ outb (port1 + 1) 0x00
    ∷ outb (port1 + 3) 0x03
    ∷ outb (port1 + 2) 0xc7
    ∷ outb (port1 + 4) 0x0b
    ∷ []

-- One round: the line status, the byte that is then there, and the key that `getch` waits for.
pub record Round : Type 0 where
  pub status : ℕ
  pub arrived : ℕ
  pub key : ℕ

-- `c & 1`
abbrev pub is_ready : Round → Bool
is_ready r = r.status % 2 == 1

-- `ch` after the round, and what was printed.
abbrev pub received : (ch : ℕ) → Round → ℕ
received ch r = if is_ready r then r.arrived else ch

abbrev pub shown : Round → Trace
shown r = if is_ready r then print (r.arrived ∷ []) ∷ [] else []

-- The loop of `send`: it ends behind a round in which `ch` is 27. `none` is that the rounds end
-- first. `ch` is not set before the first byte: it is an argument.
send_loop : (ch : ℕ) → List Round → Option Trace
send_loop ch [] = none
send_loop ch (r ∷ rs) =
    let done = shown r ++ outb port1 r.key ∷ [] in
    let later = send_loop (received ch r) rs in
    if received ch r == 27 then some done else later >>= (λ t. some (done ++ t))

pub send : (junk : ℕ) → List Round → Option Trace
unfolding send_loop init_serial
send junk rs = send_loop junk rs >>= (λ t. some (init_serial ++ t))

-- The loop of `receive`, which ends with a line feed.
receive_loop : (ch : ℕ) → List Round → Option Trace
receive_loop ch [] = none
receive_loop ch (r ∷ rs) =
    let later = receive_loop (received ch r) rs in
    if received ch r == b'\n' then some (shown r) else later >>= (λ t. some (shown r ++ t))

pub receive : (junk : ℕ) → List Round → Option Trace
unfolding receive_loop init_serial
receive junk rs = receive_loop junk rs >>= (λ t. some (init_serial ++ t))
