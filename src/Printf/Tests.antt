-- ===== src/Printf/Tests.antt =====
-- kprintf.c on concrete formats.
use janus.Base.{◌≡◌, refl, true, some, [], ◌∷◌, arith}
use janus.Printf.{Flags, no_flags, word, digits_of, convert, vsnprintf}
use janus.Printf.Digits.{value, digits_of-value}
use janus.Printf.Formats.{format-conversion}

-- "%-5d|" and -42.
left_run :
    vsnprintf (37 ∷ 45 ∷ 53 ∷ 100 ∷ 124 ∷ []) (word 4294967254 ∷ [])
    ≡ some (45 ∷ 52 ∷ 50 ∷ 32 ∷ 32 ∷ 124 ∷ [], 6)
unfolding vsnprintf
left_run = refl

abbrev negative : Flags
negative = record no_flags { num0 = true; zeropad = true }

digits_of-value_example : value 16 0 (digits_of 11 true 16 48879 []) ≡ 48879
digits_of-value_example = digits_of-value true 16 48879 (omega arith) (omega arith) (omega arith)

-- "n=%d." and -42.
format-conversion_example :
    vsnprintf (110 ∷ 61 ∷ 37 ∷ 100 ∷ 46 ∷ []) (word 4294967254 ∷ [])
    ≡ some (110 ∷ 61 ∷ 45 ∷ 52 ∷ 50 ∷ 46 ∷ [], 6)
unfolding convert
format-conversion_example =
    format-conversion (110 ∷ 61 ∷ []) (46 ∷ []) 100 (45 ∷ 52 ∷ 50 ∷ []) (word 4294967254 ∷ [])
      ((λ e. omega (arith, e)), ((λ e. omega (arith, e)), tt)) ((λ e. omega (arith, e)), tt) refl
      (omega arith) (λ e. omega (arith, e)) (λ e. omega (arith, e)) (λ e. omega (arith, e))
      (λ e. omega (arith, e))
