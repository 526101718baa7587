-- ===== src/Serial/Tests.antt =====
-- serial.c on a few rounds.
use janus.Base.{ℕ, ◌≡◌, refl, some, [], ◌∷◌, ◌++◌}
use janus.Serial.{init_serial, Round, receive}
use janus.Serial.Lines.{printed}

abbrev byte : ℕ → Round
byte c = record { status = 0x61; arrived = c; key = 0 }

abbrev nothing : Round
nothing = record { status = 0x60; arrived = 0; key = 0 }

receive_run :
    receive 0 (byte 104 ∷ nothing ∷ byte 105 ∷ byte 10 ∷ byte 106 ∷ [])
    ≡ some (init_serial ++ printed (104 ∷ 105 ∷ 10 ∷ []))
unfolding receive
receive_run = refl
