-- ===== src/Keyboard/Events.antt =====
-- Key events, their bytes, and what `GetRawKey` and `getch` make of a run of them.
use Prim.Native.Nat.{bit_and}
use janus.Base.{
  ℕ, ◌+◌, ◌<◌, ◌≤◌, ◌≡◌, refl, ◌∙◌, ap, Bool, true, false, ◌&&◌, none, some, List, [], ◌∷◌, ◌++◌,
  ◌==◌, if◌then◌else◌, map, arith, ==_iff, get_elem?-none,
}
use janus.Base.Bits.{all_below, all_below_sound}
use janus.Keyboard.{is_shift, get_raw_key, getch, key_map, ascii_shift, ascii_non_sh}

pub data KeyEvent : Type 0 where
  down up : ℕ → KeyEvent

-- The byte of an event: the scan code, with bit 7 set on release.
abbrev pub byte : KeyEvent → ℕ
byte (down k) = k
byte (up k) = k + 128

-- Events that deliver no key: releases, and presses of a shift key.
abbrev pub Silent : List KeyEvent → Type 0
Silent [] = Unit
Silent (down k ∷ es) = (k < 128) × (is_shift k ≡ true) × Silent es
Silent (up k ∷ es) = (k < 128) × Silent es

-- `shift` behind such events: a shift key pressed sets it, a shift key released clears it.
pub shift_after : Bool → List KeyEvent → Bool
shift_after s [] = s
shift_after s (down k ∷ es) = shift_after (if is_shift k then true else s) es
shift_after s (up k ∷ es) = shift_after (if is_shift k then false else s) es

down_table : all_below 128 (λ k. bit_and k 0x80 == 0) ≡ true
unfolding all_below
down_table = refl

up_table :
    all_below 128 (λ k. (bit_and (k + 128) 0x80 == 128) && (bit_and (k + 128) 0x7f == k)) ≡ true
unfolding all_below
up_table = refl

pub down_bits : (k : ℕ) → k < 128 → bit_and k 0x80 ≡ 0
down_bits k h = (==_iff _ _).0 (all_below_sound 128 _ k down_table h)

pub up_bits : (k : ℕ) → k < 128 → (bit_and (k + 128) 0x80 ≡ 128) × (bit_and (k + 128) 0x7f ≡ k)
up_bits k h = ground (arith, all_below_sound 128 _ k up_table h)

-- Behind any silent events the first key pressed is delivered, with `shift` as the events left it,
-- and the bytes behind it are not read.
pub get_raw_key_lem :
    (es : List KeyEvent) (s : Bool) (k : ℕ) (rest : List ℕ)
    → Silent es
    → k < 128
    → is_shift k ≡ false
    → get_raw_key s (map byte es ++ k ∷ rest) ≡ some (k, shift_after s es, rest)
unfolding get_raw_key shift_after
get_raw_key_lem [] s k rest q h n = rw (down_bits k h, n)
get_raw_key_lem (down j ∷ es) s k rest q h n =
    rw (down_bits j q.0, q.1, get_raw_key_lem es true k rest q.2 h n)
get_raw_key_lem (up j ∷ es) s k rest q h n = rw (
  (up_bits j q.0).0,
  (up_bits j q.0).1,
  get_raw_key_lem es (if is_shift j then false else s) k rest q.1 h n,
)

-- `getch` behind any silent events returns the entry of the key map that their shifts select, if
-- the scan code lies in the map.
pub getch_lem :
    (es : List KeyEvent) (s : Bool) (k : ℕ) (rest : List ℕ)
    → Silent es
    → k < 128
    → is_shift k ≡ false
    → getch s (map byte es ++ k ∷ rest)
      ≡ some (key_map (shift_after s es) k, shift_after s es, rest)
unfolding getch
getch_lem es s k rest q h n = rw (get_raw_key_lem es s k rest q h n, getch)

key_map_past : (s : Bool) (k : ℕ) → 89 ≤ k → key_map s k ≡ none
unfolding key_map ascii_shift ascii_non_sh
key_map_past true k h = get_elem?-none ascii_shift k h
key_map_past false k h = get_elem?-none ascii_non_sh k h

-- A key with a scan code from 89 on makes `getch` read behind the end of its key map, which has 89
-- entries.
getch_past_map :
    (es : List KeyEvent) (s : Bool) (k : ℕ) (rest : List ℕ)
    → Silent es
    → 89 ≤ k
    → k < 128
    → getch s (map byte es ++ k ∷ rest) ≡ some (none, shift_after s es, rest)
getch_past_map es s k rest q h l =
    getch_lem es s k rest q l (ground arith)
    ∙ ap (λ o. some (o, shift_after s es, rest)) (key_map_past (shift_after s es) k h)
