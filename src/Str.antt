-- ===== src/Str.antt =====
-- src/kernel/string.c over the flat memory. A pointer is an address, a returned pointer an
-- `Option` of one where NULL is possible. A `while` that counts `n` or `limit` down recurs on it;
-- a loop that runs to a NUL takes fuel and returns `none` only when the fuel ends.
-- `char` is signed on x86, so the comparisons subtract signed bytes.
pub mod Blocks
pub mod Measure
pub mod Compare
pub mod Copy
pub mod Search
pub mod Number
mod Tests
use janus.Base.{
  ℕ, zero, suc, ◌+◌, ◌-◌, ◌*◌, ◌%◌, ◌^◌, ◌≡◌, Bool, true, false, not, ◌&&◌, ◌||◌, Option, none,
  some, ltb, leb, ◌==◌, if◌then◌else◌,
}
use janus.Base.Int.{ℤ, pos, sub_ℕ}
use janus.Memory.{Mem, store}

-- `*s1 - *s2` of two bytes read through `char *`: 128 to 255 stand for -128 to -1. Adding 128
-- to both, modulo 256, keeps the difference and makes both non-negative.
abbrev biased : ℕ → ℕ
biased c = (c + 128) % 256

pub char_sub : ℕ → ℕ → ℤ
char_sub a b = sub_ℕ (biased a) (biased b)

pub memset : Mem → (s c n : ℕ) → Mem
memset m s c zero = m
memset m s c (suc n) = memset (store m s (c % 256)) (s + 1) c n

pub memcpy : Mem → (dst src n : ℕ) → Mem
memcpy m d s zero = m
memcpy m d s (suc n) = memcpy (store m d (m s)) (d + 1) (s + 1) n

-- The loop never changes `n`.
pub memcmp : ℕ → Mem → (s1 s2 n : ℕ) → Option ℤ
memcmp zero m s1 s2 n = none
memcmp (suc fuel) m s1 s2 n =
    let rest = memcmp fuel m (s1 + 1) (s2 + 1) n in
    let differ = if m s1 == m s2 then rest else some (char_sub (m s1) (m s2)) in
    if n == 0 then some (pos 0) else differ

strlen_loop : ℕ → Mem → (s len : ℕ) → Option ℕ
strlen_loop zero m s len = none
strlen_loop (suc fuel) m s len =
    let rest = strlen_loop fuel m (s + 1) (len + 1) in if m s == 0 then some len else rest

pub strlen : ℕ → Mem → ℕ → Option ℕ
unfolding strlen_loop
strlen fuel m s = strlen_loop fuel m s 0

-- The first argument is `maxlen - len`.
strnlen_loop : ℕ → Mem → (s len : ℕ) → ℕ
strnlen_loop zero m s len = len
strnlen_loop (suc k) m s len =
    let rest = strnlen_loop k m (s + 1) (len + 1) in if m s == 0 then len else rest

pub strnlen : Mem → (s maxlen : ℕ) → ℕ
unfolding strnlen_loop
strnlen m s maxlen = strnlen_loop maxlen m s 0

-- `cmp != 0 || *s1 == '\0' || *s2 == '\0'`
abbrev pub stops : ℕ → ℕ → Bool
stops a b = not (a == b) || ((a == 0) || (b == 0))

pub strcmp : ℕ → Mem → (s1 s2 : ℕ) → Option ℤ
strcmp zero m s1 s2 = none
strcmp (suc fuel) m s1 s2 =
    let rest = strcmp fuel m (s1 + 1) (s2 + 1) in
    if stops (m s1) (m s2) then some (char_sub (m s1) (m s2)) else rest

-- The first argument is `limit - i`.
pub strncmp : ℕ → Mem → (s1 s2 : ℕ) → ℤ
strncmp zero m s1 s2 = pos 0
strncmp (suc k) m s1 s2 =
    let rest = strncmp k m (s1 + 1) (s2 + 1) in
    if stops (m s1) (m s2) then char_sub (m s1) (m s2) else rest

pub strcpy : ℕ → Mem → (dest src : ℕ) → Option Mem
strcpy zero m d s = none
strcpy (suc fuel) m d s =
    let rest = strcpy fuel (store m d (m s)) (d + 1) (s + 1) in
    if m s == 0 then some (store m d 0) else rest

-- `while (*s1) s1++;`
strend : ℕ → Mem → ℕ → Option ℕ
strend zero m s = none
strend (suc fuel) m s = let rest = strend fuel m (s + 1) in if m s == 0 then some s else rest

-- The second loop and the closing NUL of `strcat` are those of `strcpy`.
pub strcat : ℕ → Mem → (s1 s2 : ℕ) → Option Mem
unfolding strend
strcat fuel m s1 s2 = elim (strend fuel m s1) [ none ↦ none | some e ↦ strcpy fuel m e s2 ]

-- Recursion on `limit`.
pub strncpy : Mem → (dest src limit : ℕ) → Mem
strncpy m d s zero = m
strncpy m d s (suc k) =
    let rest = strncpy (store m d (m s)) (d + 1) (s + 1) k in if m s == 0 then store m d 0 else rest

-- `int` arithmetic, kept as the 32-bit pattern.
power_loop : ℕ → (a pro : ℕ) → ℕ
power_loop zero a pro = pro
power_loop (suc n) a pro = power_loop n a (pro * a % 2 ^ 32)

pub power : ℕ → ℕ → ℕ
unfolding power_loop
power a b = power_loop b a 1

abbrev pub is_digit : ℕ → Bool
is_digit c = leb b'0' c && leb c b'9'

-- `val` as the three tests leave it: a byte that is no hex digit keeps the last value.
pub hex_val : ℕ → ℕ → ℕ
hex_val c val =
    let v1 : ℕ = if is_digit c then c - b'0' else val in
    let v2 : ℕ = if leb b'A' c && leb c b'F' then c - b'A' + 10 else v1 in
    if leb b'a' c && leb c b'f' then c - b'a' + 10 else v2

-- The arguments are `len` counting down, the address of the digits, `i`, `val` and `ret`.
atoi_hex : ℕ → Mem → (buf i val ret : ℕ) → ℕ
atoi_hex zero m buf i val ret = ret
atoi_hex (suc k) m buf i val ret =
    let v = hex_val (m (buf + k)) val in
    atoi_hex k m buf (i + 1) v ((ret + power 16 i * v) % 2 ^ 32)

atoi_dec : ℕ → Mem → (buf ret : ℕ) → Option ℕ
atoi_dec zero m buf ret = none
atoi_dec (suc fuel) m buf ret =
    let rest = atoi_dec fuel m (buf + 1) ((ret * 10 % 2 ^ 32 + (m buf - b'0')) % 2 ^ 32) in
    if is_digit (m buf) then rest else some ret

-- What `atoi` does behind `0x`, given `len = strlen(buf)`.
atoi_tail : Mem → (junk buf : ℕ) → Option ℕ → Option ℕ
unfolding atoi_hex
atoi_tail m junk buf none = none
atoi_tail m junk buf (some len) = some (atoi_hex len m buf 0 junk 0)

-- `val` is not initialised in the source: its first value is the argument `junk`.
pub atoi : ℕ → Mem → (junk buf : ℕ) → Option ℕ
unfolding atoi_tail atoi_dec strlen
atoi fuel m junk buf =
    if (m buf == b'0') && ((m (buf + 1) == b'x') || (m (buf + 1) == b'X'))
    then atoi_tail m junk (buf + 2) (strlen fuel m (buf + 2))
    else atoi_dec fuel m buf 0

-- The result is `some none` for NULL. `c` is a `char` given as its byte.
pub strchr : ℕ → Mem → (s c : ℕ) → Option (Option ℕ)
strchr zero m s c = none
strchr (suc fuel) m s c =
    let rest = strchr fuel m (s + 1) c in
    let miss = if m s == c then some (some s) else rest in if m s == 0 then some none else miss

-- From `p = s + k` down to `s`.
strrchr_loop : ℕ → Mem → (s c : ℕ) → Option ℕ
strrchr_loop zero m s c = none
strrchr_loop (suc k) m s c =
    let rest = strrchr_loop k m s c in if m (s + k) == c then some (s + k) else rest

pub strrchr : ℕ → Mem → (s c : ℕ) → Option (Option ℕ)
unfolding strrchr_loop strlen
strrchr fuel m s c = elim (strlen fuel m s) [
  | none ↦ none
  | some len ↦ some (strrchr_loop len m s c)
]

-- `for (i = 0; i < setLen; ++i) if (*s == accept[i])`: the arguments are the rounds left and
-- the address of `accept[i]`.
accepts : ℕ → Mem → (c accept : ℕ) → Bool
accepts zero m c a = false
accepts (suc k) m c a = let rest = accepts k m c (a + 1) in if c == m a then true else rest

strpbrk_loop : ℕ → Mem → (s accept set_len : ℕ) → Option (Option ℕ)
strpbrk_loop zero m s a set_len = none
strpbrk_loop (suc fuel) m s a set_len =
    let rest = strpbrk_loop fuel m (s + 1) a set_len in
    let miss = if accepts set_len m (m s) a then some (some s) else rest in
    if m s == 0 then some none else miss

pub strpbrk : ℕ → Mem → (s accept : ℕ) → Option (Option ℕ)
unfolding strpbrk_loop accepts strlen
strpbrk fuel m s a = elim (strlen fuel m a) [
  | none ↦ none
  | some set_len ↦ strpbrk_loop fuel m s a set_len
]
