-- ===== src/Printf/Digits.antt =====
-- The digits of a number, and the value that they are read back as.
use janus.Base.{
  ℕ, zero, suc, ◌+◌, ◌-◌, ◌*◌, ◌/◌, ◌%◌, ◌^◌, ◌≤◌, ◌<◌, ◌≡◌, ◌∙◌, ap, Bool, List, [], ◌∷◌, ◌==◌,
  if◌then◌else◌, ltb, arith, Bool-cases, inl, inr,
}
use native.Mathlib.Nat.{
  mod-add-div', mod-lt, div-lt_iff_lt-mul, pow-suc, pow-zero, div-eq_of_lt, pow-le-pow_left,
}
use janus.Printf.{digit, digits_of}

-- A digit read back, in either case.
abbrev pub digit_value : ℕ → ℕ
digit_value c = if ltb c 58 then c - 48 else if ltb c 97 then c - 55 else c - 87

-- The number that the digits stand for in a radix, behind `acc`.
unfoldable pub value : (radix acc : ℕ) → List ℕ → ℕ
value r acc [] = acc
value r acc (c ∷ cs) = value r (acc * r + digit_value c) cs

digit_value-digit : (caps : Bool) (n : ℕ) → n < 16 → digit_value (digit caps n) ≡ n
digit_value-digit caps n h = ground arith

value_lem :
    (fuel : ℕ) (caps : Bool) (r num : ℕ) (w : List ℕ)
    → 0 < r
    → r ≤ 16
    → num < r ^ fuel
    → 0 < fuel
    → value r 0 (digits_of fuel caps r num w) ≡ value r num w
unfolding digits_of value
value_lem zero caps r num w p q h f = absurd (omega (arith, f))
value_lem (suc fuel) caps r num w p q h f =
    let d = digit_value-digit caps (num % r) (omega (arith, mod-lt num p, q)) in
    elim (Bool-cases (num / r == 0)) [
      | inl e ↦
          let z : num / r ≡ 0 = ground arith in
          let only : 0 * r + digit_value (digit caps (num % r)) ≡ num =
            omega (arith, d, mod-add-div' num r, ap (λ t. t * r) z) in
          rw e (ap (λ t. value r t w) only)
      | inr e ↦
          let nz : 0 < num / r = ground arith in
          let (h', f') = smaller fuel nz h in
          let back : num / r * r + digit_value (digit caps (num % r)) ≡ num =
            omega (arith, d, mod-add-div' num r) in
          rw e (
            value_lem fuel caps r (num / r) (digit caps (num % r) ∷ w) p q h' f'
            ∙ ap (λ t. value r t w) back)
    ]
  where
    smaller : (k : ℕ) → 0 < num / r → num < r ^ suc k → (num / r < r ^ k) × (0 < k)
    smaller zero nz h' = absurd (omega (arith, nz, div-eq_of_lt (one h')))
      where
        one : num < r ^ 1 → num < r
        one l = omega (arith, l, pow-suc r 0, ap (λ t. t * r) (pow-zero r))
    smaller (suc k) nz h' =
        ((div-lt_iff_lt-mul p).1 (omega (arith, h', pow-suc r (suc k))), omega arith)

-- The digits of any word of 32 bits, in radix 8 to 16, with capitals or without, read back
-- to it; the fuel of 11 rounds is enough.
pub digits_of-value :
    (caps : Bool) (r num : ℕ)
    → 8 ≤ r
    → r ≤ 16
    → num < 2 ^ 32
    → value r 0 (digits_of 11 caps r num []) ≡ num
unfolding value
digits_of-value caps r num l h b =
    value_lem 11 caps r num [] (omega (arith, l)) h (omega (arith, b, pow-le-pow_left l 11))
      (omega arith)
