-- ===== src/Base/Bits.antt =====
-- Bit operations: the bits of a word, one by one, and tables over a small range.
use Prim.Native.Nat.{
  ℕ, zero, suc, ◌+◌, ◌*◌, ◌/◌, ◌%◌, ◌≤◌, ◌<◌, min, max, bit_and, bit_or, digits, bit_and-bitwise,
  bit_or-bitwise,
}
use mathlib.Core.Path.{◌≡◌, refl, ap, ◌∙◌, sym}
use mathlib.Core.Bool.{Bool, true, ◌&&◌}
use native.Mathlib.Omega.{arith}

-- A test that holds of every number under the limit.
unfoldable pub all_below : ℕ → (ℕ → Bool) → Bool
all_below zero test = true
all_below (suc limit) test = all_below limit test && test limit

pub all_below_sound :
    (limit : ℕ) (test : ℕ → Bool) (i : ℕ) → all_below limit test ≡ true → i < limit → test i ≡ true
unfolding all_below
all_below_sound zero test i table under = absurd (omega arith)
all_below_sound (suc limit) test i table under = ground (arith, all_below_sound limit test i)

-- Bit `i` of a word, 0 or 1.
unfoldable pub bit : ℕ → ℕ → ℕ
bit zero x = x % 2
bit (suc i) x = bit i (x / 2)

-- What the native operations compute: a recursion over the digits of the first word, which goes on
-- with `rest` of the second where the first is 0.
module _ (rest : ℕ → ℕ) (join : ℕ → ℕ → ℕ) where
  digits_zero : (fuel b : ℕ) → digits rest join fuel 0 b ≡ rest b
  digits_zero zero b = refl
  digits_zero (suc fuel) b = refl

  -- Any fuel from the first word on comes to the same.
  digits_enough : (k l a b : ℕ) → a ≤ k → a ≤ l → digits rest join k a b ≡ digits rest join l a b
  digits_enough k l zero b hk hl = digits_zero k b ∙ sym (digits_zero l b)
  digits_enough zero l (suc a) b hk hl = absurd (omega (arith, hk))
  digits_enough (suc k) zero (suc a) b hk hl = absurd (omega (arith, hl))
  digits_enough (suc k) (suc l) (suc a) b hk hl =
      ap (λ r. r * 2 + join (suc a % 2) (b % 2))
        (digits_enough k l (suc a / 2) (b / 2) (omega (arith, hk)) (omega (arith, hl)))

  digits_halve :
      ((b : ℕ) → rest b ≡ rest (b / 2) * 2 + join 0 (b % 2))
      → (a b : ℕ)
      → digits rest join a a b ≡ digits rest join (a / 2) (a / 2) (b / 2) * 2 + join (a % 2) (b % 2)
  digits_halve even zero b = even b
  digits_halve even (suc a) b =
      ap (λ r. r * 2 + join (suc a % 2) (b % 2))
        (digits_enough a (suc a / 2) (suc a / 2) (b / 2) (omega arith) (omega arith))

pub bit_and_step : (a b : ℕ) → bit_and a b ≡ bit_and (a / 2) (b / 2) * 2 + min (a % 2) (b % 2)
bit_and_step a b =
    bit_and-bitwise a b
    ∙ digits_halve (λ b. zero) min (λ b. omega arith) a b
    ∙ ap (λ r. r * 2 + min (a % 2) (b % 2)) (sym (bit_and-bitwise (a / 2) (b / 2)))

pub zero-bit_or : (b : ℕ) → bit_or 0 b ≡ b
zero-bit_or b = bit_or-bitwise 0 b

pub bit_or_step : (a b : ℕ) → bit_or a b ≡ bit_or (a / 2) (b / 2) * 2 + max (a % 2) (b % 2)
bit_or_step a b =
    bit_or-bitwise a b
    ∙ digits_halve (λ b. b) max (λ b. omega arith) a b
    ∙ ap (λ r. r * 2 + max (a % 2) (b % 2)) (sym (bit_or-bitwise (a / 2) (b / 2)))

-- Each bit of a conjunction or a disjunction.
pub bit-bit_and : (i a b : ℕ) → bit i (bit_and a b) ≡ min (bit i a) (bit i b)
unfolding bit
bit-bit_and zero a b = omega (arith, bit_and_step a b)
bit-bit_and (suc i) a b =
    ap (bit i) (omega (arith, bit_and_step a b)) ∙ bit-bit_and i (a / 2) (b / 2)

pub bit-bit_or : (i a b : ℕ) → bit i (bit_or a b) ≡ max (bit i a) (bit i b)
unfolding bit
bit-bit_or zero a b = omega (arith, bit_or_step a b)
bit-bit_or (suc i) a b = ap (bit i) (omega (arith, bit_or_step a b)) ∙ bit-bit_or i (a / 2) (b / 2)

pub bit-lt : (i a : ℕ) → bit i a < 2
unfolding bit
bit-lt zero a = omega arith
bit-lt (suc i) a = bit-lt i (a / 2)
