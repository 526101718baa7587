-- ===== src/Shell/Tests.antt =====
-- shell.c on concrete lines.
use janus.Base.{
  ℕ, ◌+◌, ◌++◌, inl, inr, length, ◌≡◌, refl, none, some, replicate, List, [], ◌∷◌, arith,
}
use janus.Screen.{Screen}
use janus.Shell.Echo.{echo, At, echo-edit}
use janus.Shell.{edit, shell_gen_args, shell_parse, called}
use janus.Shell.Split.{shell_gen_args-line}

-- "cd" and "p1", with two spaces between them and one behind.
abbrev two_words : List (List ℕ × ℕ)
two_words = (99 ∷ 100 ∷ [], 1) ∷ (112 ∷ 49 ∷ [], 1) ∷ []

shell_gen_args-line_example :
    shell_gen_args 0 (99 ∷ 100 ∷ 32 ∷ 32 ∷ 112 ∷ 49 ∷ 32 ∷ [])
    ≡ some (some ((99 ∷ 100 ∷ []) ∷ (112 ∷ 49 ∷ []) ∷ []))
shell_gen_args-line_example =
    shell_gen_args-line 0 two_words (λ e. omega (arith, e))
      (
        (λ e. cc),
        (
          (λ e. omega (arith, e)),
          (λ e. omega (arith, e)),
          (λ e. omega (arith, e)),
          ((λ e. omega (arith, e)), (λ e. omega (arith, e)), (λ e. omega (arith, e)), tt),
        ),
        (
          (λ e. cc),
          (
            (λ e. omega (arith, e)),
            (λ e. omega (arith, e)),
            (λ e. omega (arith, e)),
            ((λ e. omega (arith, e)), (λ e. omega (arith, e)), (λ e. omega (arith, e)), tt),
          ),
          tt,
        ),
      )
      (omega arith)

-- A line of 257 bytes overruns its buffer.
long_line : shell_gen_args 0 (replicate 257 99) ≡ none
unfolding shell_gen_args
long_line = refl

-- "cd p1" calls the command at place 2.
cd_run :
    shell_parse 0 (32 ∷ 99 ∷ 100 ∷ 32 ∷ 112 ∷ 49 ∷ [])
    ≡ called 2 ((99 ∷ 100 ∷ []) ∷ (112 ∷ 49 ∷ []) ∷ [])
unfolding shell_parse
cd_run = refl

-- Behind the prompt of the first row.
abbrev prompted : Screen
prompted = record { vidmem = λ p. 0; cursor_x = 8; cursor_y = 0; trace = [] }

-- "ls" and BACKSPACE.
echo-edit_example :
    (t : Screen) × (text : List ℕ) × ((ks : List ℕ)
      → echo prompted ((108 ∷ 115 ∷ 8 ∷ []) ++ ks) ≡ echo t ks)
    × ((ks : List ℕ) → edit [] ((108 ∷ 115 ∷ 8 ∷ []) ++ ks) ≡ edit text ks)
    × At t (8 + length text) 0
echo-edit_example =
    echo-edit (108 ∷ 115 ∷ 8 ∷ []) prompted [] 0
      (inr (omega arith, omega arith), (inr (omega arith, omega arith), (inl refl, tt)))
      (refl, refl) (omega arith) (omega arith)
