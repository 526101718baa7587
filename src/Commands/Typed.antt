-- ===== src/Commands/Typed.antt =====
-- From the line that is typed to what the command does: src/utils/shell.c,
-- src/utils/shell_builtin.c and src/kernel/fs.c together.
use janus.Base.{
  ℕ, ◌≤◌, ◌≡◌, ◌≢◌, refl, ◌∙◌, ap, Bool, true, false, some, List, [], ◌∷◌, if◌then◌else◌, map,
  arith, length,
}
use janus.Shell.{cmdlen, cmdtab, find_command}
use janus.Shell.Split.{Plain, Words, line}
use janus.Shell.Dispatch.{shell_parse-called}
use janus.Fs.{Fs, unregister_module}
use janus.Fs.Registry.{registered, without, unregister_module-without}
use janus.Commands.{module_not_found, unset, Outside}
use janus.Commands.Run.{Shown, table, call, answered, run_line}
use janus.Commands.Drivers.{removed, cmd_rmdrv}

-- "rmdrv"
abbrev pub rmdrv : List ℕ
rmdrv = 114 ∷ 109 ∷ 100 ∷ 114 ∷ 118 ∷ []

rmdrv-Plain : Plain rmdrv
rmdrv-Plain = (
  (λ e. omega (arith, e)),
  (λ e. omega (arith, e)),
  (λ e. omega (arith, e)),
  (
    (λ e. omega (arith, e)),
    (λ e. omega (arith, e)),
    (λ e. omega (arith, e)),
    (
      (λ e. omega (arith, e)),
      (λ e. omega (arith, e)),
      (λ e. omega (arith, e)),
      (
        (λ e. omega (arith, e)),
        (λ e. omega (arith, e)),
        (λ e. omega (arith, e)),
        ((λ e. omega (arith, e)), (λ e. omega (arith, e)), (λ e. omega (arith, e)), tt),
      ),
    ),
  ),
)

rmdrv_place : find_command 0 cmdtab rmdrv ≡ some 11
unfolding find_command
rmdrv_place = refl

pub run_line-called :
    (o : Outside) (w : Shown) (s : Fs) (before x c k : ℕ) (cs : List ℕ) (ws : List (List ℕ × ℕ))
    → before ≢ 92
    → Words ((c ∷ cs, k) ∷ ws)
    → length (line ((c ∷ cs, k) ∷ ws)) ≤ cmdlen
    → find_command 0 cmdtab (c ∷ cs) ≡ some x
    → run_line o w s before (line ((c ∷ cs, k) ∷ ws)) ≡ (
        let args = map (λ v. v.0) ((c ∷ cs, k) ∷ ws) in
        call o w s x (length args) (table w.behind args))
unfolding run_line answered
run_line-called o w s before x c k cs ws n r l e =
    ap (answered o w s) (shell_parse-called before x c k cs ws n r l e)

removed_lem :
    (s s' : Fs) (behind : ℕ → List ℕ) (name : List ℕ) (b : Bool)
    → unregister_module s name ≡ some (if b then 1 else 0, s')
    → cmd_rmdrv s 2 (table behind (rmdrv ∷ name ∷ []))
      ≡ some (s', (if b then [] else module_not_found name ∷ []), unset)
unfolding cmd_rmdrv removed
removed_lem s s' behind name true e = ap (removed name) e
removed_lem s s' behind name false e = ap (removed name) e

-- The line `rmdrv` and a name, with spaces between and behind, of at most 256 bytes, typed where at least one driver is
-- registered: the command returns, the first driver of that name and no other is then gone, and
-- only where there was none it says so. The name is not empty and has no space, tab or backslash,
-- and the byte before the buffer is no backslash.
pub run_line-rmdrv :
    (o : Outside) (w : Shown) (s : Fs) (before j k : ℕ) (name : List ℕ)
    → before ≢ 92
    → name ≢ []
    → Plain name
    → length (line ((rmdrv, j) ∷ (name, k) ∷ [])) ≤ cmdlen
    → s.drv_list ≢ []
    → (s' : Fs) × (run_line o w s before (line ((rmdrv, j) ∷ (name, k) ∷ []))
        ≡ some (s', (if registered name s.drv_list then [] else module_not_found name ∷ []), unset))
      × (s'.drv_list ≡ without name s.drv_list)
unfolding call
run_line-rmdrv o w s before j k name n ne pl fits some_driver =
    let (s', run, gone) = unregister_module-without s name some_driver in
    let words : Words ((rmdrv, j) ∷ (name, k) ∷ []) = ((λ e. cc), rmdrv-Plain, (ne, pl, tt)) in
    (
      s',
      run_line-called o w s before 11 114 j (109 ∷ 100 ∷ 114 ∷ 118 ∷ []) ((name, k) ∷ []) n words
            fits rmdrv_place
          ∙ removed_lem s s' w.behind name (registered name s.drv_list) run,
      gone,
    )
