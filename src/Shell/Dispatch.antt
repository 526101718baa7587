-- ===== src/Shell/Dispatch.antt =====
-- A line of words, as `shell_parse` of src/utils/shell.c takes it to a command.
use janus.Base.{ℕ, ◌≤◌, ◌≡◌, ◌≢◌, refl, ◌∙◌, ap, false, some, List, [], ◌∷◌, length, map, arith}
use janus.Shell.{
  cmdlen, cmdtab, find_command, is_space, skip_blanks, shell_parse, shell_dispatch, shell_run,
  shell_exec, executed, shell_gen_args, called,
}
use janus.Shell.Split.{Words, line, shell_gen_args-line}

skip_blanks_word : (c : ℕ) (cs : List ℕ) → c ≢ 32 → c ≢ 9 → skip_blanks (c ∷ cs) ≡ c ∷ cs
unfolding skip_blanks
skip_blanks_word c cs n1 n2 = let e : is_space c ≡ false = ground arith in rw e refl

dispatch_word :
    (before c : ℕ) (cs : List ℕ) (args : List (List ℕ))
    → c ≢ 32
    → c ≢ 9
    → shell_gen_args before (c ∷ cs) ≡ some (some args)
    → shell_parse before (c ∷ cs) ≡ shell_exec args
unfolding shell_parse shell_dispatch shell_run
dispatch_word before c cs args n1 n2 e = simp (skip_blanks_word c cs n1 n2, e) refl

exec_place :
    (x : ℕ) (name : List ℕ) (args : List (List ℕ))
    → find_command 0 cmdtab name ≡ some x
    → shell_exec (name ∷ args) ≡ called x (name ∷ args)
unfolding shell_exec executed
exec_place x name args e = ap (executed name args) e

parsed :
    (before x c k : ℕ) (cs : List ℕ) (ws : List (List ℕ × ℕ))
    → Words ((c ∷ cs, k) ∷ ws)
    → find_command 0 cmdtab (c ∷ cs) ≡ some x
    → shell_gen_args before (line ((c ∷ cs, k) ∷ ws))
      ≡ some (some (map (λ w. w.0) ((c ∷ cs, k) ∷ ws)))
    → shell_parse before (line ((c ∷ cs, k) ∷ ws)) ≡ called x (map (λ w. w.0) ((c ∷ cs, k) ∷ ws))
parsed before x c k cs [] (ne, (n1, n2, n3, pl), r) e g =
    dispatch_word before c _ ((c ∷ cs) ∷ []) n1 n2 g ∙ exec_place x (c ∷ cs) [] e
parsed before x c k cs (w ∷ ws) (ne, (n1, n2, n3, pl), r) e g =
    dispatch_word before c _ (map (λ v. v.0) ((c ∷ cs, k) ∷ w ∷ ws)) n1 n2 g
    ∙ exec_place x (c ∷ cs) (map (λ v. v.0) (w ∷ ws)) e

-- A line of at most 256 bytes, of words whose first is the name of a command calls it with the words as its arguments.
pub shell_parse-called :
    (before x c k : ℕ) (cs : List ℕ) (ws : List (List ℕ × ℕ))
    → before ≢ 92
    → Words ((c ∷ cs, k) ∷ ws)
    → length (line ((c ∷ cs, k) ∷ ws)) ≤ cmdlen
    → find_command 0 cmdtab (c ∷ cs) ≡ some x
    → shell_parse before (line ((c ∷ cs, k) ∷ ws)) ≡ called x (map (λ w. w.0) ((c ∷ cs, k) ∷ ws))
shell_parse-called before x c k cs ws n r l e =
    parsed before x c k cs ws r e (shell_gen_args-line before ((c ∷ cs, k) ∷ ws) n r l)
