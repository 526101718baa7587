-- ===== src/Pic/Masks.antt =====
-- What `enable_irq` and `disable_irq` do to each line of the mask.
use Prim.Native.Nat.{bit_and, bit_or}
use janus.Base.{
  ℕ, ◌^◌, ◌<◌, ◌≡◌, inl, inr, refl, Bool, true, ◌&&◌, ◌||◌, arith, leb, ◌==◌, if◌then◌else◌, ==_iff,
  Bool-cases,
}
use janus.Base.Bits.{bit, all_below, all_below_sound, bit-bit_and, bit-bit_or, bit-lt}
use janus.Pic.{Pic, inverse, cleared, enable_irq, disable_irq}

-- The bits of 2^n and of its inverse, for the 16 lines.
one_table :
    all_below 16 (λ n. all_below 16 (λ i. bit i (2 ^ n) == (if i == n then 1 else 0))) ≡ true
unfolding all_below bit
one_table = refl

inverse_table :
    all_below 16 (λ n. all_below 16 (λ i. bit i (inverse (2 ^ n)) == (if i == n then 0 else 1)))
    ≡ true
unfolding all_below bit
inverse_table = refl

bit-one : (i n : ℕ) → i < 16 → n < 16 → bit i (2 ^ n) ≡ (if i == n then 1 else 0)
bit-one i n hi hn = (==_iff _ _).0 (all_below_sound 16 _ i (all_below_sound 16 _ n one_table hn) hi)

bit-inverse : (i n : ℕ) → i < 16 → n < 16 → bit i (inverse (2 ^ n)) ≡ (if i == n then 0 else 1)
bit-inverse i n hi hn =
    (==_iff _ _).0 (all_below_sound 16 _ i (all_below_sound 16 _ n inverse_table hn) hi)

pub bit-cleared :
    (i m n : ℕ) → i < 16 → n < 16 → bit i (cleared m n) ≡ (if i == n then 0 else bit i m)
bit-cleared i m n hi hn =
    ground (arith, bit-bit_and i m (inverse (2 ^ n)), bit-inverse i n hi hn, bit-lt i m)

-- `enable_irq` unmasks the line, and the cascade line 2 too where the line is the slave's; every
-- other line keeps its mask.
enable_irq_lem :
    (p : Pic) (n i : ℕ)
    → n < 16
    → i < 16
    → bit i (enable_irq p n).irq_mask
      ≡ (if (i == n) then 0 else if leb 8 n && (i == 2) then 0 else bit i p.irq_mask)
unfolding enable_irq
enable_irq_lem p n i hn hi = ground (
  arith,
  bit-cleared i p.irq_mask n hi hn,
  bit-cleared i (cleared p.irq_mask n) 2 hi (omega arith),
)

-- The test of `disable_irq`: all lines of the slave are masked.
abbrev pub all_slave : ℕ → Bool
all_slave m = bit_and m 0xff00 == 0xff00

-- `disable_irq` masks the line; it masks the cascade line 2 exactly where the mask then has all
-- lines of the slave; every other line keeps its mask.
disable_irq_lem :
    (p : Pic) (n i : ℕ)
    → n < 16
    → i < 16
    → bit i (disable_irq p n).irq_mask ≡ (
        if (i == n) || ((i == 2) && all_slave (bit_or p.irq_mask (2 ^ n)))
        then 1
        else bit i p.irq_mask)
unfolding disable_irq
disable_irq_lem p n i hn hi = elim (Bool-cases (all_slave (bit_or p.irq_mask (2 ^ n)))) [
  | inl all ↦ ground (
    arith,
    bit-bit_or i p.irq_mask (2 ^ n),
    bit-one i n hi hn,
    bit-bit_or i (bit_or p.irq_mask (2 ^ n)) (2 ^ 2),
    bit-one i 2 hi (omega arith),
    bit-lt i p.irq_mask,
  )
  | inr some_open ↦
      ground (arith, bit-bit_or i p.irq_mask (2 ^ n), bit-one i n hi hn, bit-lt i p.irq_mask)
]
