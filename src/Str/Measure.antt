-- ===== src/Str/Measure.antt =====
-- `strlen` and `strnlen` of string.c measure the string at an address.
use janus.Base.{ℕ, zero, suc, ◌+◌, ◌<◌, ◌≡◌, refl, ◌∙◌, ap, some, List, [], ◌∷◌, arith, length, min}
use janus.Memory.{Mem, IsStr}
use janus.Str.Blocks.{shift_eq}
use janus.Str.{strlen_loop, strlen, strnlen_loop, strnlen}

strlen_loop_lem :
    (xs : List ℕ) (fuel : ℕ) (m : Mem) (s len : ℕ)
    → IsStr m s xs
    → length xs < fuel
    → strlen_loop fuel m s len ≡ some (len + length xs)
unfolding strlen_loop
strlen_loop_lem [] zero m s len is h = absurd (omega arith)
strlen_loop_lem (x ∷ xs) zero m s len is h = absurd (omega arith)
strlen_loop_lem [] (suc fuel) m s len is h = ground arith
strlen_loop_lem (x ∷ xs) (suc fuel) m s len is h =
    ground (arith, strlen_loop_lem xs fuel m (s + 1) (len + 1) is.3 (omega arith))

-- At a string of bytes `xs`, with fuel for its NUL, `strlen` returns the number of bytes.
pub strlen-length :
    (xs : List ℕ) (fuel : ℕ) (m : Mem) (s : ℕ)
    → IsStr m s xs
    → length xs < fuel
    → strlen fuel m s ≡ some (length xs)
unfolding strlen
strlen-length xs fuel m s is h = strlen_loop_lem xs fuel m s 0 is h ∙ ap some (omega arith)

strnlen_loop_lem :
    (xs : List ℕ) (k : ℕ) (m : Mem) (s len : ℕ)
    → IsStr m s xs
    → strnlen_loop k m s len ≡ len + min k (length xs)
unfolding strnlen_loop
strnlen_loop_lem [] zero m s len is = omega arith
strnlen_loop_lem (x ∷ xs) zero m s len is = omega arith
strnlen_loop_lem [] (suc k) m s len is = ground arith
strnlen_loop_lem (x ∷ xs) (suc k) m s len is =
    ground (arith, strnlen_loop_lem xs k m (s + 1) (len + 1) is.3)

strnlen_loop_agree :
    (k : ℕ) (m m' : Mem) (s len : ℕ)
    → ((i : ℕ) → i < k → m (s + i) ≡ m' (s + i))
    → strnlen_loop k m s len ≡ strnlen_loop k m' s len
unfolding strnlen_loop
strnlen_loop_agree zero m m' s len same = refl
strnlen_loop_agree (suc k) m m' s len same = ground (
  arith,
  same 0,
  strnlen_loop_agree k m m' (s + 1) (len + 1)
      (λ i h. shift_eq m m' s s i (same (suc i) (omega arith))),
)

-- At a string of bytes `xs`, `strnlen` returns the smaller of its length and `maxlen`.
pub strnlen-min :
    (xs : List ℕ) (m : Mem) (s maxlen : ℕ)
    → IsStr m s xs
    → strnlen m s maxlen ≡ min maxlen (length xs)
unfolding strnlen
strnlen-min xs m s maxlen is = strnlen_loop_lem xs maxlen m s 0 is ∙ omega arith

-- The result depends on no byte but the first `maxlen`: `strnlen` reads no further.
pub strnlen_agree :
    (m m' : Mem) (s maxlen : ℕ)
    → ((i : ℕ) → i < maxlen → m (s + i) ≡ m' (s + i))
    → strnlen m s maxlen ≡ strnlen m' s maxlen
unfolding strnlen
strnlen_agree m m' s maxlen same = strnlen_loop_agree maxlen m m' s 0 same
