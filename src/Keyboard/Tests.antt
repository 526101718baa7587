-- ===== src/Keyboard/Tests.antt =====
-- keyboard.c on concrete bytes.
use janus.Base.{◌≡◌, refl, true, false, some, [], ◌∷◌, arith}
use janus.Keyboard.{get_raw_key, getch, key_map, ascii_shift}
use janus.Keyboard.Events.{down, up, shift_after, getch_lem}

-- Shift, then the key of `a`: a capital.
typed : getch false (0x2a ∷ 0x1e ∷ 0x9e ∷ []) ≡ some (some b'A', true, 0x9e ∷ [])
unfolding getch get_raw_key key_map ascii_shift
typed = refl

getch_lem_example :
    getch false (0x2a ∷ 0xaa ∷ 0x1e ∷ [])
    ≡ some (
      key_map (shift_after false (down 0x2a ∷ up 0x2a ∷ [])) 0x1e,
      shift_after false (down 0x2a ∷ up 0x2a ∷ []),
      [],
    )
getch_lem_example =
    getch_lem (down 0x2a ∷ up 0x2a ∷ []) false 0x1e [] (omega arith, refl, (omega arith, tt))
      (omega arith) refl
