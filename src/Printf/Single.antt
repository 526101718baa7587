-- ===== src/Printf/Single.antt =====
-- `vsnprintf` of src/kernel/kprintf.c on the formats that echo a line: a blank, and `%c`.
use janus.Base.{ℕ, ◌%◌, ◌<◌, ◌≡◌, ◌==◌, refl, some, false, [], ◌∷◌, arith}
use janus.Printf.{word, vsnprintf, format, step, convert}

pub vsnprintf-blank : vsnprintf (32 ∷ []) [] ≡ some (32 ∷ [], 1)
unfolding vsnprintf format step
vsnprintf-blank = refl

pub vsnprintf-char :
    (k : ℕ) → 0 < k → k < 256 → vsnprintf (37 ∷ 99 ∷ []) (word k ∷ []) ≡ some (k ∷ [], 1)
unfolding vsnprintf format step convert
vsnprintf-char k lo hi =
    let e : k % 256 ≡ k = omega (arith, hi) in
    let n : (k == 0) ≡ false = ground (arith, lo) in rw (e, n) refl
