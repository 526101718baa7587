-- ===== src/Str/Blocks.antt =====
-- `memset`, `memcpy` and `memcmp` of string.c, address by address.
use janus.Base.{
  ℕ, zero, suc, ◌+◌, ◌-◌, ◌%◌, ◌≤◌, ◌<◌, ◌≡◌, ◌≢◌, ◌⊎◌, refl, ◌∙◌, ap, ◌&&◌, none, some, arith, ltb,
  leb, if◌then◌else◌,
}
use janus.Memory.{Mem, store}
use janus.Memory.Laws.{store_self, store_ne}
use janus.Str.{memset, memcpy, memcmp, char_sub}

-- `memset` writes the byte `c` at each of the `n` addresses from `s` on, and nothing else.
pub memset_lem :
    (m : Mem) (s c n a : ℕ) → memset m s c n a ≡ (if leb s a && ltb a (s + n) then c % 256 else m a)
unfolding memset
memset_lem m s c zero a = ground arith
memset_lem m s c (suc n) a = ground (
  arith,
  memset_lem (store m s (c % 256)) (s + 1) c n a,
  store_self m s (c % 256),
  store_ne m s (c % 256) a,
)

store-lt : (m : Mem) (p v x : ℕ) → m x < 256 → store m p v x < 256
unfolding store
store-lt m p v x h = ground arith

-- Every address holds a byte.
abbrev pub IsBytes : Mem → Type 0
IsBytes m = (x : ℕ) → m x < 256

-- `memcpy` leaves each address from `dst` on with the byte that the matching source address held
-- before, and all others alone, if no source byte is overwritten before it is read.
memcpy_lem :
    (m : Mem) (d s n a : ℕ)
    → (d ≤ s) ⊎ (s + n ≤ d)
    → IsBytes m
    → memcpy m d s n a ≡ (if leb d a && ltb a (d + n) then m (s + (a - d)) else m a)
unfolding memcpy
memcpy_lem m d s zero a h bytes = ground arith
memcpy_lem m d s (suc n) a h bytes = ground (
  arith,
  memcpy_lem (store m d (m s)) (d + 1) (s + 1) n a (omega arith)
      (λ x. store-lt m d (m s) x (bytes x)),
  store_self m d (m s),
  store_ne m d (m s) a,
  store_ne m d (m s) (s + 1 + (a - (d + 1))),
  bytes s,
)

-- Once `n` is not 0 it has no influence: `memcmp` compares on past the `n` bytes.
pub memcmp_any :
    (fuel : ℕ) (m : Mem) (s1 s2 n n' : ℕ)
    → n ≢ 0
    → n' ≢ 0
    → memcmp fuel m s1 s2 n ≡ memcmp fuel m s1 s2 n'
unfolding memcmp
memcmp_any zero m s1 s2 n n' h h' = refl
memcmp_any (suc fuel) m s1 s2 n n' h h' =
    ground (arith, memcmp_any fuel m (s1 + 1) (s2 + 1) n n' h h')

-- One byte on.
pub shift_eq :
    (m m' : Mem) (s1 s2 i : ℕ) → m (s1 + suc i) ≡ m' (s2 + suc i) → m (s1 + 1 + i) ≡ m' (s2 + 1 + i)
shift_eq m m' s1 s2 i e = ap m (omega arith) ∙ e ∙ ap m' (omega arith)

-- Two regions that agree on `k` bytes and differ at the next give the difference there, for every
-- `n` but 0, also when `n ≤ k` and the first `n` bytes are equal.
memcmp_past_end :
    (k fuel : ℕ) (m : Mem) (s1 s2 n : ℕ)
    → k < fuel
    → n ≢ 0
    → ((i : ℕ) → i < k → m (s1 + i) ≡ m (s2 + i))
    → m (s1 + k) ≢ m (s2 + k)
    → memcmp fuel m s1 s2 n ≡ some (char_sub (m (s1 + k)) (m (s2 + k)))
unfolding memcmp
memcmp_past_end k zero m s1 s2 n h z same differ = absurd (omega arith)
memcmp_past_end zero (suc fuel) m s1 s2 n h z same differ = ground arith
memcmp_past_end (suc k) (suc fuel) m s1 s2 n h z same differ = ground (
  arith,
  same 0 (omega arith),
  memcmp_past_end k fuel m (s1 + 1) (s2 + 1) n (omega arith) z
      (λ i lt. shift_eq m m s1 s2 i (same (suc i) (omega arith)))
      (λ e. differ (ap m (omega arith) ∙ e ∙ ap m (omega arith))),
)

-- On regions that agree everywhere `memcmp` does not return, whatever the fuel, unless `n` is 0.
pub memcmp_diverges :
    (fuel : ℕ) (m : Mem) (s1 s2 n : ℕ)
    → n ≢ 0
    → ((i : ℕ) → m (s1 + i) ≡ m (s2 + i))
    → memcmp fuel m s1 s2 n ≡ none
unfolding memcmp
memcmp_diverges zero m s1 s2 n z same = refl
memcmp_diverges (suc fuel) m s1 s2 n z same = ground (
  arith,
  same 0,
  memcmp_diverges fuel m (s1 + 1) (s2 + 1) n z (λ i. shift_eq m m s1 s2 i (same (suc i))),
)
