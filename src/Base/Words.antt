-- ===== src/Base/Words.antt =====
-- Arithmetic modulo 2^32, the width of the program's `int`, `unsigned` and `long`.
use Prim.Native.Nat.{ℕ, ◌+◌, ◌*◌, ◌/◌, ◌%◌, ◌^◌}
use mathlib.Core.Path.{◌≡◌, ap}
use native.Mathlib.Omega.{arith}

abbrev pub u32 : ℕ
u32 = 2 ^ 32

split_u32 : (x : ℕ) → x ≡ u32 * (x / u32) + x % u32
split_u32 x = omega arith

-- A factor may be reduced before the product is.
pub mod_mul_left : (x y : ℕ) → x % u32 * y % u32 ≡ x * y % u32
mod_mul_left x y = omega (arith, ap (λ (t : ℕ). t * y) (split_u32 x))

pub mod_mul_eq : (x y z : ℕ) → x % u32 ≡ y % u32 → x * z % u32 ≡ y * z % u32
mod_mul_eq x y z e =
    omega (arith, mod_mul_left x z, mod_mul_left y z, ap (λ (t : ℕ). t * z % u32) e)
