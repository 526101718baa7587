-- ===== src/Delay/Calibrated.antt =====
-- What the calibration finds, on a machine where a tick passes exactly from some count on.
use Prim.Native.Nat.{bit_and, bit_or, min, max}
use native.Mathlib.Nat.{pow-suc}
use janus.Base.{
  ℕ, zero, suc, ◌+◌, ◌-◌, ◌*◌, ◌/◌, ◌%◌, ◌^◌, ◌≤◌, ◌<◌, ◌≡◌, refl, ◌∙◌, ap, ap₂, Bool, true, false,
  some, ◌==◌, leb, if◌then◌else◌, arith, Bool-cases, inl, inr,
}
use native.Mathlib.Decide.{ℕ_discrete}
use janus.Base.Bits.{bit_and_step, bit_or_step, zero-bit_or}
use janus.Delay.{coarse, fine, calibrate}

bit_or-zero : (n a : ℕ) → a ≤ n → bit_or a 0 ≡ a
bit_or-zero zero a h =
    omega (arith, bit_or_step a 0, zero-bit_or 0, ap (λ x. bit_or x 0) (zero_of a h))
  where
    zero_of : (a : ℕ) → a ≤ 0 → a ≡ 0
    zero_of a h = omega arith
bit_or-zero (suc n) zero h = zero-bit_or 0
bit_or-zero (suc n) (suc a) h =
    omega (arith, bit_or_step (suc a) 0, bit_or-zero n (suc a / 2) (omega arith))

bit_or_parts :
    (p q r t : ℕ) → r < 2 → t < 2 → bit_or (2 * p + r) (2 * q + t) ≡ 2 * bit_or p q + max r t
bit_or_parts p q r t hr ht =
    let same : bit_or ((2 * p + r) / 2) ((2 * q + t) / 2) ≡ bit_or p q =
      ap₂ bit_or (omega arith) (omega arith) in
    omega (arith, bit_or_step (2 * p + r) (2 * q + t), same)

bit_and_parts :
    (p q r t : ℕ) → r < 2 → t < 2 → bit_and (2 * p + r) (2 * q + t) ≡ 2 * bit_and p q + min r t
bit_and_parts p q r t hr ht =
    let same : bit_and ((2 * p + r) / 2) ((2 * q + t) / 2) ≡ bit_and p q =
      ap₂ bit_and (omega arith) (omega arith) in
    omega (arith, bit_and_step (2 * p + r) (2 * q + t), same)

pow_double : (n k : ℕ) → 2 ^ suc n * k ≡ 2 * (2 ^ n * k)
pow_double n k = omega (arith, ap (λ t. t * k) (pow-suc 2 n))

-- Setting a bit below all those of `d`.
bit_or-add : (j k : ℕ) → bit_or (2 ^ suc j * k) (2 ^ j) ≡ 2 ^ suc j * k + 2 ^ j
bit_or-add zero k =
    ap₂ bit_or (omega arith) (omega arith)
    ∙ bit_or_parts k 0 0 1 (omega arith) (omega arith)
    ∙ omega (arith, bit_or-zero k k (omega arith))
bit_or-add (suc j) k =
    ap₂ bit_or (pow_double (suc j) k ∙ omega arith) (omega (arith, pow-suc 2 j))
    ∙ bit_or_parts (2 ^ suc j * k) (2 ^ j) 0 0 (omega arith) (omega arith)
    ∙ omega (arith, bit_or-add j k, pow_double (suc j) k, pow-suc 2 j)

pow_pos : (n : ℕ) → 0 < 2 ^ n
pow_pos zero = omega arith
pow_pos (suc n) = omega (arith, pow_pos n, pow-suc 2 n)

bit_and-mask : (w k : ℕ) → k < 2 ^ w → bit_and k (2 ^ w - 1) ≡ k
bit_and-mask zero zero h = refl
bit_and-mask zero (suc k) h = absurd (omega arith)
bit_and-mask (suc w) k h =
    ap₂ bit_and (omega arith) (omega (arith, pow_pos w, pow-suc 2 w))
    ∙ bit_and_parts (k / 2) (2 ^ w - 1) (k % 2) 1 (omega arith) (omega arith)
    ∙ omega (arith, bit_and-mask w (k / 2) (omega (arith, pow-suc 2 w)))

-- Clearing it again, in a word of `w` bits.
bit_and-sub :
    (w j k : ℕ)
    → j < w
    → 2 ^ suc j * k + 2 ^ j < 2 ^ w
    → bit_and (2 ^ suc j * k + 2 ^ j) (2 ^ w - 1 - 2 ^ j) ≡ 2 ^ suc j * k
bit_and-sub zero j k h l = absurd (omega arith)
bit_and-sub (suc w) zero k h l =
    ap₂ bit_and (omega arith) (omega (arith, pow_pos w, pow-suc 2 w))
    ∙ bit_and_parts k (2 ^ w - 1) 1 0 (omega arith) (omega arith)
    ∙ omega (arith, bit_and-mask w k (omega (arith, pow-suc 2 w)))
bit_and-sub (suc w) (suc j) k h l =
    ap₂ bit_and (omega (arith, pow_double (suc j) k, pow-suc 2 j))
      (omega (arith, pow-suc 2 j, pow-suc 2 w, small))
    ∙ bit_and_parts (2 ^ suc j * k + 2 ^ j) (2 ^ w - 1 - 2 ^ j) 0 1 (omega arith) (omega arith)
    ∙ omega (arith, bit_and-sub w j k (omega arith) small, pow_double (suc j) k)
  where
    small : 2 ^ suc j * k + 2 ^ j < 2 ^ w
    small = omega (arith, pow_double (suc j) k, pow-suc 2 j, pow-suc 2 w)

-- A tick passes exactly in a delay of `t` rounds or more.
abbrev pub TicksFrom : (ℕ → Bool) → ℕ → Type 0
TicksFrom over t = (n : ℕ) → over n ≡ leb t n

coarse_step :
    (over : ℕ → Bool) (t fuel k : ℕ)
    → TicksFrom over t
    → 2 ^ k < 2 ^ 31
    → coarse over (suc fuel) (2 ^ k)
      ≡ (if leb t (2 ^ suc k) then some (2 ^ suc k) else coarse over fuel (2 ^ suc k))
unfolding coarse
coarse_step over t fuel k ticks h =
    ap (λ n. if over n then some n else coarse over fuel n) next
    ∙ ap (λ b. if b then some (2 ^ suc k) else coarse over fuel (2 ^ suc k)) (ticks (2 ^ suc k))
  where
    next : 2 ^ k * 2 % 2 ^ 32 ≡ 2 ^ suc k
    next = omega (arith, pow-suc 2 k)

-- Stage 1 ends at the first power of two that reaches the threshold.
coarse_lem :
    (over : ℕ → Bool) (t k fuel : ℕ)
    → TicksFrom over t
    → k < 31
    → 2 ^ k < t
    → t ≤ 2 ^ 31
    → 31 < fuel + k
    → (n : ℕ) × (coarse over fuel (2 ^ k) ≡ some (2 ^ suc n))
      × (2 ^ n < t)
      × (t ≤ 2 ^ suc n)
      × (n < 31)
coarse_lem over t k zero ticks hk h l hf = absurd (omega arith)
coarse_lem over t k (suc fuel) ticks hk h l hf = elim (Bool-cases (leb t (2 ^ suc k))) [
  | inl up ↦ (k, step ∙ rw up, h, omega (arith, up_le up), hk)
  | inr on ↦
      let (n, run, lo, hi, small) =
        coarse_lem over t (suc k) fuel ticks (room on) (omega (arith, on_lt on)) l (omega arith) in
      (n, step ∙ rw on run, lo, hi, small)
]
  where
    step :
        coarse over (suc fuel) (2 ^ k)
        ≡ (if leb t (2 ^ suc k) then some (2 ^ suc k) else coarse over fuel (2 ^ suc k))
    step = coarse_step over t fuel k ticks (omega arith)

    up_le : leb t (2 ^ suc k) ≡ true → t ≤ 2 ^ suc k
    up_le e = ground arith

    on_lt : leb t (2 ^ suc k) ≡ false → 2 ^ suc k < t
    on_lt e = ground arith

    room : leb t (2 ^ suc k) ≡ false → suc k < 31
    room e = elim (ℕ_discrete k 30) [
      | yes last ↦ absurd (omega (arith, on_lt e, ap (λ n. 2 ^ suc n) last))
      | no other ↦ omega arith
    ]

-- One round of stage 2, at a count that is a multiple of the bit above the one tried.
fine_step :
    (over : ℕ → Bool) (t rounds j k : ℕ)
    → TicksFrom over t
    → j < 32
    → 2 ^ suc j * k + 2 ^ j < 2 ^ 32
    → fine over (suc rounds) (2 ^ suc j * k) (2 ^ suc j)
      ≡ fine over rounds
          (2 ^ j * (if leb t (2 ^ suc j * k + 2 ^ j) then 2 * k else 2 * k + 1))
          (2 ^ j)
unfolding fine
fine_step over t rounds j k ticks hj fits =
    let half : 2 ^ suc j / 2 ≡ 2 ^ j = omega (arith, pow-suc 2 j) in
    let some_bit : (2 ^ j == 0) ≡ false = ground (arith, pow_pos j) in
    let test = ticks (2 ^ suc j * k + 2 ^ j) in
    elim (Bool-cases (leb t (2 ^ suc j * k + 2 ^ j))) [
      | inl up ↦
          rw (half, some_bit, bit_or-add j k, test, up, bit_and-sub 32 j k hj fits)
            (ap (λ d. fine over rounds d (2 ^ j)) (omega (arith, pow_double j k)))
      | inr on ↦
          rw (half, some_bit, bit_or-add j k, test, on)
            (ap (λ d. fine over rounds d (2 ^ j)) (omega (arith, pow_double j k)))
    ]

-- Stage 2 keeps the count below the threshold, and the threshold at most `bit` above it.
fine_lem :
    (over : ℕ → Bool) (t rounds j k : ℕ)
    → TicksFrom over t
    → j < 32
    → 2 ^ j ≤ 2 ^ 31
    → 2 ^ j * k < t
    → t ≤ 2 ^ j * k + 2 ^ j
    → t ≤ 2 ^ 31
    → (fine over rounds (2 ^ j * k) (2 ^ j) < t)
      × (t ≤ fine over rounds (2 ^ j * k) (2 ^ j) + 2 ^ (j - rounds))
fine_lem over t zero j k ticks hj small lo hi l =
    unfold fine in (lo, omega (arith, ap (λ n. 2 ^ n) (same j)))
  where
    same : (j : ℕ) → j - 0 ≡ j
    same j = omega arith
fine_lem over t (suc rounds) zero k ticks hj small lo hi l =
    unfold fine in (lo, omega (arith, ap (λ n. 2 ^ n) none_left))
  where
    none_left : 0 - suc rounds ≡ 0
    none_left = omega arith
fine_lem over t (suc rounds) (suc j) k ticks hj small lo hi l =
    rw (fine_step over t rounds j k ticks (omega arith) (omega (arith, pow-suc 2 j)))
      (elim (Bool-cases (leb t (2 ^ suc j * k + 2 ^ j))) [
        | inl up ↦
            rw (same, up)
              (fine_lem over t rounds j (2 * k) ticks (omega arith) (omega (arith, pow-suc 2 j))
                (omega (arith, pow_double j k)) (omega (arith, pow_double j k, up_le up)) l)
        | inr on ↦
            rw (same, on)
              (fine_lem over t rounds j (2 * k + 1) ticks (omega arith) (omega (arith, pow-suc 2 j))
                (omega (arith, pow_double j k, on_lt on))
                (omega (arith, pow_double j k, pow-suc 2 j)) l)
      ])
  where
    same : suc j - suc rounds ≡ j - rounds
    same = omega arith

    up_le : leb t (2 ^ suc j * k + 2 ^ j) ≡ true → t ≤ 2 ^ suc j * k + 2 ^ j
    up_le e = ground arith

    on_lt : leb t (2 ^ suc j * k + 2 ^ j) ≡ false → 2 ^ suc j * k + 2 ^ j < t
    on_lt e = ground arith

-- On a machine where a tick passes exactly from `t` rounds on, 2 < t ≤ 2^31, calibration from 1
-- returns, with fuel for 31 doublings, a tenth of a count that is below `t` by at most 2^(n - 8),
-- where 2^n is the last power of two below `t`.
pub calibrate_lem :
    (over : ℕ → Bool) (t fuel : ℕ)
    → TicksFrom over t
    → 2 < t
    → t ≤ 2 ^ 31
    → 31 < fuel
    → (c : ℕ) × (n : ℕ) × (calibrate over fuel 1 ≡ some (c / 10))
      × (c < t)
      × (t ≤ c + 2 ^ (n - 8))
      × (2 ^ n < t)
      × (t ≤ 2 ^ suc n)
unfolding calibrate
calibrate_lem over t fuel ticks h l hf =
    let (n, run, lo, hi, small) =
      coarse_lem over t 0 fuel ticks (omega arith) (omega arith) l (omega arith) in
    let half : 2 ^ suc n / 2 ≡ 2 ^ n = omega (arith, pow-suc 2 n) in
    let one : 2 ^ n ≡ 2 ^ n * 1 = omega arith in
    let (below, near) =
      fine_lem over t 8 n 1 ticks (omega arith) (omega arith) (omega arith)
        (omega (arith, pow-suc 2 n)) l in
    (
      fine over 8 (2 ^ n * 1) (2 ^ n),
      n,
      rw (run, half) (ap (λ d. some (fine over 8 d (2 ^ n) / 10)) one),
      below,
      near,
      lo,
      hi,
    )
