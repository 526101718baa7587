-- ===== src/Pit.antt =====
-- drivers/pit.c: the interval timer. `init_pit`'s frequency, a float in the source, is a whole
-- number here, as at its one call.
use janus.Base.{ℕ, ◌+◌, ◌*◌, ◌/◌, ◌%◌, ◌^◌, ◌<◌, ◌≡◌, List, [], ◌∷◌, ◌++◌, arith}
use janus.Io.{Trace, outb, print}

-- "PIT initialising" and "PIT initialised"; the waits for a key are not modelled.
abbrev pub initialising : List ℕ
initialising =
    80 ∷ 73 ∷ 84 ∷ 32 ∷ 105 ∷ 110 ∷ 105 ∷ 116 ∷ 105 ∷ 97 ∷ 108 ∷ 105 ∷ 115 ∷ 105 ∷ 110 ∷ 103 ∷ []

abbrev pub initialised : List ℕ
initialised =
    80 ∷ 73 ∷ 84 ∷ 32 ∷ 105 ∷ 110 ∷ 105 ∷ 116 ∷ 105 ∷ 97 ∷ 108 ∷ 105 ∷ 115 ∷ 101 ∷ 100 ∷ []

-- `TMR_BOTH + TMR_MD3` is 0x36.
unfoldable pub init_pit : Trace → (h channel : ℕ) → Trace
init_pit tr h channel =
    let temp : ℕ = 1193180 / h in
    tr
    ++ print initialising
      ∷ outb 0x43 (channel * 0x40 + 0x30 + 0x6)
      ∷ outb (0x40 + channel) (temp % 256)
      ∷ outb (0x40 + channel) (temp / 2 ^ 8 % 256)
      ∷ print initialised
      ∷ []

-- The latch command, then the low and the high byte, which the port delivers as arguments.
pub pit_getchannel : Trace → (channel low high : ℕ) → Trace × ℕ
pit_getchannel tr channel low high = (tr ++ outb 0x43 (channel * 0x40) ∷ [], low + high * 2 ^ 8)

-- The counter reads back what `init_pit` loads, where the divisor fits its 16 bits.
pub pit_getchannel-init_pit :
    (tr : Trace) (h channel : ℕ)
    → 1193180 / h < 2 ^ 16
    → (pit_getchannel tr channel (1193180 / h % 256) (1193180 / h / 2 ^ 8 % 256)).1 ≡ 1193180 / h
unfolding pit_getchannel
pit_getchannel-init_pit tr h channel lt = omega arith
