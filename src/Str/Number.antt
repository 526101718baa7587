-- ===== src/Str/Number.antt =====
-- `power` and `atoi` of string.c: the value that they compute, modulo 2^32.
use janus.Base.{
  ℕ, zero, suc, ◌+◌, ◌-◌, ◌*◌, ◌%◌, ◌^◌, ◌<◌, ◌≡◌, refl, sym, ◌∙◌, ap, ap₂, Bool, true, false, ◌&&◌,
  ◌||◌, some, List, [], ◌∷◌, arith, leb, ◌==◌, if◌then◌else◌, length,
}
use native.Mathlib.Nat.{pow-zero, pow-suc}
use janus.Base.Words.{u32, mod_mul_left, mod_mul_eq}
use janus.Memory.{Mem, IsStr}
use janus.Str.Measure.{strlen-length}
use janus.Str.{power_loop, power, is_digit, hex_val, atoi_hex, atoi_dec, atoi}

power_loop_lem : (n a pro : ℕ) → power_loop n a pro % u32 ≡ pro * a ^ n % u32
unfolding power_loop
power_loop_lem zero a pro = omega (arith, ap (λ t. pro * t) (pow-zero a))
power_loop_lem (suc n) a pro =
    power_loop_lem n a (pro * a % u32)
    ∙ mod_mul_left (pro * a) (a ^ n)
    ∙ ap (λ t. t % u32) (regroup ∙ ap (λ t. pro * t) (sym (pow-suc a n)))
  where
    regroup : pro * a * a ^ n ≡ pro * (a ^ n * a)
    regroup = omega arith

-- `power(a, b)` is a to the b, modulo 2^32.
pub power_lem : (a b : ℕ) → power a b % u32 ≡ a ^ b % u32
unfolding power
power_lem a b = power_loop_lem b a 1 ∙ omega arith

-- The value of a run of decimal digits behind `acc`.
unfoldable pub dec_value : ℕ → List ℕ → ℕ
dec_value acc [] = acc
dec_value acc (x ∷ xs) = dec_value (acc * 10 + (x - b'0')) xs

-- From `p` on stand the digits `xs`, and then a byte that is none.
abbrev pub Digits : Mem → ℕ → List ℕ → Type 0
Digits m p [] = is_digit (m p) ≡ false
Digits m p (x ∷ xs) = (m p ≡ x) × (is_digit x ≡ true) × Digits m (p + 1) xs

dec_value-mod :
    (xs : List ℕ) (a b : ℕ) → a % u32 ≡ b % u32 → dec_value a xs % u32 ≡ dec_value b xs % u32
unfolding dec_value
dec_value-mod [] a b e = e
dec_value-mod (x ∷ xs) a b e =
    dec_value-mod xs (a * 10 + (x - b'0')) (b * 10 + (x - b'0')) (omega arith)

atoi_dec_lem :
    (xs : List ℕ) (fuel : ℕ) (m : Mem) (p ret : ℕ)
    → Digits m p xs
    → length xs < fuel
    → ret < u32
    → atoi_dec fuel m p ret ≡ some (dec_value ret xs % u32)
unfolding atoi_dec dec_value
atoi_dec_lem [] zero m p ret ds h small = absurd (omega arith)
atoi_dec_lem (x ∷ xs) zero m p ret ds h small = absurd (omega arith)
atoi_dec_lem [] (suc fuel) m p ret ds h small = rw ds (ap some (omega arith))
atoi_dec_lem (x ∷ xs) (suc fuel) m p ret ds h small =
    rw (ds.0, ds.1)
      (atoi_dec_lem xs fuel m (p + 1) next ds.2 (omega arith) (omega arith)
        ∙ ap some (dec_value-mod xs next (ret * 10 + (x - b'0')) (omega arith)))
  where
    next : ℕ
    next = (ret * 10 % u32 + (x - b'0')) % u32

abbrev pub hex_prefix : Mem → ℕ → Bool
hex_prefix m p = (m p == b'0') && ((m (p + 1) == b'x') || (m (p + 1) == b'X'))

-- On decimal digits that do not begin with `0x`, with fuel for them and the byte behind them,
-- `atoi` returns their value modulo 2^32.
pub atoi_decimal :
    (xs : List ℕ) (fuel : ℕ) (m : Mem) (junk p : ℕ)
    → Digits m p xs
    → hex_prefix m p ≡ false
    → length xs < fuel
    → atoi fuel m junk p ≡ some (dec_value 0 xs % u32)
unfolding atoi
atoi_decimal xs fuel m junk p ds e h = rw e (atoi_dec_lem xs fuel m p 0 ds h (omega arith))

abbrev pub is_hex : ℕ → Bool
is_hex c = is_digit c || ((leb b'A' c && leb c b'F') || (leb b'a' c && leb c b'f'))

pub hex_digit : ℕ → ℕ
hex_digit c = if is_digit c then c - b'0' else if leb b'a' c then c - b'a' + 10 else c - b'A' + 10

hex_val-digit : (c val : ℕ) → is_hex c ≡ true → hex_val c val ≡ hex_digit c
unfolding hex_val hex_digit
hex_val-digit c val h = ground arith

-- The value of a run of hex digits behind `acc`.
pub hex_value : ℕ → List ℕ → ℕ
hex_value acc [] = acc
hex_value acc (x ∷ xs) = hex_value (acc * 16 + hex_digit x) xs

abbrev pub AllHex : List ℕ → Type 0
AllHex [] = Unit
AllHex (x ∷ xs) = (is_hex x ≡ true) × AllHex xs

-- The same value read off the memory, last digit first.
value_at : Mem → (p k acc : ℕ) → ℕ
value_at m p zero acc = acc
value_at m p (suc k) acc = value_at m p k acc * 16 + hex_digit (m (p + k))

value_at-front :
    (m : Mem) (p k acc : ℕ)
    → value_at m p (suc k) acc ≡ value_at m (p + 1) k (acc * 16 + hex_digit (m p))
unfolding value_at
value_at-front m p zero acc = ap (λ q. acc * 16 + hex_digit (m q)) (omega arith)
value_at-front m p (suc k) acc =
    ap₂ (λ v q. v * 16 + hex_digit (m q)) (value_at-front m p k acc) (omega arith)

value_at-hex_value :
    (xs : List ℕ) (m : Mem) (p acc : ℕ)
    → IsStr m p xs
    → value_at m p (length xs) acc ≡ hex_value acc xs
unfolding value_at hex_value
value_at-hex_value [] m p acc is = refl
value_at-hex_value (x ∷ xs) m p acc is =
    value_at-front m p (length xs) acc
    ∙ ap (λ c. value_at m (p + 1) (length xs) (acc * 16 + hex_digit c)) is.0
    ∙ value_at-hex_value xs m (p + 1) (acc * 16 + hex_digit x) is.3

atoi_hex_lem :
    (k : ℕ) (m : Mem) (p i val ret : ℕ)
    → ((j : ℕ) → j < k → is_hex (m (p + j)) ≡ true)
    → ret < u32
    → atoi_hex k m p i val ret ≡ (ret + 16 ^ i * value_at m p k 0) % u32
unfolding atoi_hex value_at
atoi_hex_lem zero m p i val ret digits small = omega arith
atoi_hex_lem (suc k) m p i val ret digits small =
    atoi_hex_lem k m p (i + 1) v ret' (λ j h. digits j (omega arith)) (omega arith)
    ∙ omega (
      arith,
      ap (λ (t : ℕ). power 16 i * t) same,
      mod_mul_eq (power 16 i) (16 ^ i) d (power_lem 16 i),
      ap (λ (t : ℕ). t * value_at m p k 0) next,
    )
  where
    v : ℕ
    v = hex_val (m (p + k)) val

    d : ℕ
    d = hex_digit (m (p + k))

    ret' : ℕ
    ret' = (ret + power 16 i * v) % u32

    same : v ≡ d
    same = hex_val-digit (m (p + k)) val (digits k (omega arith))

    next : 16 ^ (i + 1) ≡ 16 ^ i * 16
    next = ap (λ n. 16 ^ n) (omega arith) ∙ pow-suc 16 i

IsStr-hex :
    (xs : List ℕ) (m : Mem) (p : ℕ)
    → IsStr m p xs
    → AllHex xs
    → (j : ℕ) → j < length xs
    → is_hex (m (p + j)) ≡ true
IsStr-hex [] m p is hs j h = absurd (omega arith)
IsStr-hex (x ∷ xs) m p is hs zero h = ap is_hex (ap m (omega arith) ∙ is.0) ∙ hs.0
IsStr-hex (x ∷ xs) m p is hs (suc j) h =
    ap (λ a. is_hex (m a)) (omega arith) ∙ IsStr-hex xs m (p + 1) is.3 hs.1 j (omega arith)

-- On `0x` or `0X` before a string of hex digits, with fuel for the string, `atoi` returns their
-- value modulo 2^32, whatever `val` held at first.
atoi_hexadecimal :
    (xs : List ℕ) (fuel : ℕ) (m : Mem) (junk p : ℕ)
    → hex_prefix m p ≡ true
    → IsStr m (p + 2) xs
    → AllHex xs
    → length xs < fuel
    → atoi fuel m junk p ≡ some (hex_value 0 xs % u32)
unfolding atoi
atoi_hexadecimal xs fuel m junk p e is hs h =
    rw (e, strlen-length xs fuel m (p + 2) is h)
      (ap some (
        atoi_hex_lem (length xs) m (p + 2) 0 junk 0 (IsStr-hex xs m (p + 2) is hs) (omega arith)
        ∙ omega (
          arith,
          pow-zero 16,
          ap (λ t. t % u32) (value_at-hex_value xs m (p + 2) 0 is),
          ap (λ t. t * value_at m (p + 2) (length xs) 0) (pow-zero 16),
        )))
