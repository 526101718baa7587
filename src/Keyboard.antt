-- ===== src/Keyboard.antt =====
-- drivers/keyboard.c: scan codes to keys, with the key maps of include/keydefs.h. The bytes that
-- the keyboard port delivers are a list; the poll of the status port before each is not modelled.
pub mod Events
mod Tests
use Prim.Native.Nat.{bit_and}
use janus.Base.{
  ℕ, Bool, true, false, ◌||◌, Option, none, some, List, [], ◌∷◌, ◌==◌, if◌then◌else◌, get_elem?,
}

pub ascii_non_sh : List ℕ
ascii_non_sh =
    32 ∷ 27 ∷ 49 ∷ 50 ∷ 51 ∷ 52 ∷ 53 ∷ 54 ∷ 55 ∷ 56 ∷ 57 ∷ 48 ∷ 45 ∷ 61 ∷ 8 ∷ 9 ∷ 113 ∷ 119 ∷ 101
    ∷ 114 ∷ 116 ∷ 121 ∷ 117 ∷ 105 ∷ 111 ∷ 112 ∷ 91 ∷ 93 ∷ 10 ∷ 0 ∷ 97 ∷ 115 ∷ 100 ∷ 102 ∷ 103 ∷ 104
    ∷ 106 ∷ 107 ∷ 108 ∷ 59 ∷ 39 ∷ 96 ∷ 0 ∷ 92 ∷ 122 ∷ 120 ∷ 99 ∷ 118 ∷ 98 ∷ 110 ∷ 109 ∷ 44 ∷ 46 ∷ 47
    ∷ 0 ∷ 0 ∷ 0 ∷ 32 ∷ 0 ∷ 128 ∷ 129 ∷ 130 ∷ 131 ∷ 132 ∷ 133 ∷ 134 ∷ 135 ∷ 136 ∷ 137 ∷ 0 ∷ 0 ∷ 146
    ∷ 151 ∷ 148 ∷ 45 ∷ 150 ∷ 53 ∷ 153 ∷ 43 ∷ 147 ∷ 152 ∷ 149 ∷ 144 ∷ 145 ∷ 0 ∷ 0 ∷ 0 ∷ 138 ∷ 139
    ∷ []

pub ascii_shift : List ℕ
ascii_shift =
    32 ∷ 27 ∷ 33 ∷ 64 ∷ 35 ∷ 36 ∷ 37 ∷ 94 ∷ 38 ∷ 42 ∷ 40 ∷ 41 ∷ 95 ∷ 43 ∷ 8 ∷ 9 ∷ 81 ∷ 87 ∷ 69 ∷ 82
    ∷ 84 ∷ 89 ∷ 85 ∷ 73 ∷ 79 ∷ 80 ∷ 123 ∷ 125 ∷ 10 ∷ 0 ∷ 65 ∷ 83 ∷ 68 ∷ 70 ∷ 71 ∷ 72 ∷ 74 ∷ 75 ∷ 76
    ∷ 58 ∷ 34 ∷ 126 ∷ 0 ∷ 124 ∷ 90 ∷ 88 ∷ 67 ∷ 86 ∷ 66 ∷ 78 ∷ 77 ∷ 60 ∷ 62 ∷ 63 ∷ 0 ∷ 0 ∷ 0 ∷ 32 ∷ 0
    ∷ 128 ∷ 129 ∷ 130 ∷ 131 ∷ 132 ∷ 133 ∷ 134 ∷ 135 ∷ 136 ∷ 137 ∷ 0 ∷ 0 ∷ 146 ∷ 151 ∷ 148 ∷ 45 ∷ 150
    ∷ 53 ∷ 153 ∷ 43 ∷ 147 ∷ 152 ∷ 149 ∷ 144 ∷ 145 ∷ 0 ∷ 0 ∷ 0 ∷ 138 ∷ 139 ∷ []

abbrev pub is_shift : ℕ → Bool
is_shift c = (c == 0x2a) || (c == 0x36)

-- `GetRawKey` from the value of the global `shift`: the scan code, `shift` afterwards and the bytes
-- that are left, or `none` while the bytes so far deliver no key and the loop still waits.
pub get_raw_key : Bool → List ℕ → Option (ℕ × Bool × List ℕ)
get_raw_key shift [] = none
get_raw_key shift (c ∷ cs) =
    let released = get_raw_key (if is_shift (bit_and c 0x7f) then false else shift) cs in
    let held = get_raw_key true cs in
    let down = if is_shift c then held else some (c, shift, cs) in
    if bit_and c 0x80 == 0 then down else released

-- A key map at a scan code: `none` is a read behind the end of the array.
pub key_map : Bool → ℕ → Option ℕ
key_map true scan = get_elem? ascii_shift scan
key_map false scan = get_elem? ascii_non_sh scan

map_key : Option (ℕ × Bool × List ℕ) → Option (Option ℕ × Bool × List ℕ)
map_key none = none
map_key (some (scan, shift, rest)) = some (key_map shift scan, shift, rest)

pub getch : Bool → List ℕ → Option (Option ℕ × Bool × List ℕ)
unfolding map_key
getch shift input = map_key (get_raw_key shift input)
