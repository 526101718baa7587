-- ===== src/Commands/Rooted.antt =====
-- `root` and then `cd`, from the lines typed to the entry points of a driver: src/utils/shell.c,
-- src/utils/shell_builtin.c, src/kernel/string.c and src/kernel/fs.c together.
use janus.Base.{
  ℕ, suc, ◌+◌, ◌%◌, ◌^◌, ◌≤◌, ◌≡◌, ◌≢◌, refl, ◌∙◌, ap, true, false, some, List, [], ◌∷◌, ◌++◌,
  if◌then◌else◌, arith, length, get_or,
}
use janus.Base.Words.{u32}
use janus.Memory.{Mem}
use janus.Str.{is_digit}
use janus.Str.Number.{Digits, dec_value, hex_prefix, atoi_decimal}
use janus.Shell.{cmdlen, cmdtab, find_command, shell_panic}
use janus.Shell.Split.{Plain, Words, line}
use janus.Fs.{Driver, Partition, Fs, find_partition, fs_root, fs_chdir}
use janus.Fs.Root.{NoneFor, fs_root_first}
use janus.Commands.{unset, failed, as_int, panics, Outside, Done, text_at_0, value_of, number}
use janus.Commands.Run.{Shown, table, call, run_line}
use janus.Commands.Drivers.{cmd_root}
use janus.Commands.Files.{cmd_cd}
use janus.Commands.Typed.{run_line-called}

abbrev pub AllDigits : List ℕ → Type 0
AllDigits [] = Unit
AllDigits (c ∷ cs) = (is_digit c ≡ true) × AllDigits cs

AllDigits-Plain : (cs : List ℕ) → AllDigits cs → Plain cs
AllDigits-Plain [] d = tt
AllDigits-Plain (c ∷ cs) (e, d) =
    (ground (arith, e), ground (arith, e), ground (arith, e), AllDigits-Plain cs d)

AllDigits-Digits :
    (cs : List ℕ) (m : Mem) (p : ℕ)
    → ((i : ℕ) → m (p + i) ≡ get_or cs i 0)
    → AllDigits cs
    → Digits m p cs
AllDigits-Digits [] m p at_p d = let z : m p ≡ 0 = ap m (omega arith) ∙ at_p 0 in ground (arith, z)
AllDigits-Digits (c ∷ cs) m p at_p (e, d) = (
  ap m (omega arith) ∙ at_p 0,
  e,
  AllDigits-Digits cs m (p + 1) (λ i. ap m (omega arith) ∙ at_p (suc i)) d,
)

no_prefix : (cs : List ℕ) → AllDigits cs → hex_prefix (text_at_0 cs) 0 ≡ false
no_prefix [] d = refl
no_prefix (c ∷ []) d = ground arith
no_prefix (c ∷ c' ∷ cs) (e, r) = let e' = r.0 in ground (arith, e')

-- The number that digits stand for.
number-AllDigits : (junk : ℕ) (cs : List ℕ) → AllDigits cs → number junk cs ≡ dec_value 0 cs % u32
unfolding number
number-AllDigits junk cs d = ap value_of (
    atoi_decimal cs (suc (length cs)) (text_at_0 cs) junk 0
      (AllDigits-Digits cs (text_at_0 cs) 0 (λ i. ap (text_at_0 cs) (omega arith)) d)
      (no_prefix cs d) (omega arith))

cmd_root_done :
    (o : Outside) (s s' : Fs) (ps : List Partition) (last : Partition) (n : ℕ) (argv : ℕ → List ℕ)
    (cs : List ℕ)
    → argv 1 ≡ 112 ∷ cs
    → number o.junk cs ≡ n
    → fs_root o.calls s ps last n ≡ (1, s')
    → cmd_root o s ps last 2 argv ≡ (s', [], unset)
unfolding cmd_root
cmd_root_done o s s' ps last n argv cs a e r = rw (a, e, r) refl

-- "root" and "cd"
abbrev pub root : List ℕ
root = 114 ∷ 111 ∷ 111 ∷ 116 ∷ []

abbrev pub cd : List ℕ
cd = 99 ∷ 100 ∷ []

root_place : find_command 0 cmdtab root ≡ some 9
unfolding find_command
root_place = refl

cd_place : find_command 0 cmdtab cd ≡ some 2
unfolding find_command
cd_place = refl

-- What `cd` comes to, given what the driver returned: the new directory, or the message for its
-- code and no change.
abbrev pub moved : Fs → (w : ℕ) → Done
moved s w =
    if shell_panic (as_int w)
    then (s, panics (as_int w), failed)
    else (record s { fs_prop = w }, [], unset)

cmd_cd_done :
    (o : Outside) (s : Fs) (w : ℕ) (argv : ℕ → List ℕ)
    → fs_chdir o.calls s (argv 1) ≡ w
    → cmd_cd o s 2 argv ≡ moved s w
unfolding cmd_cd
cmd_cd_done o s w argv e = rw e refl

root-Plain : Plain root
root-Plain = (
  (λ e. omega (arith, e)),
  (λ e. omega (arith, e)),
  (λ e. omega (arith, e)),
  (
    (λ e. omega (arith, e)),
    (λ e. omega (arith, e)),
    (λ e. omega (arith, e)),
    (
      (λ e. omega (arith, e)),
      (λ e. omega (arith, e)),
      (λ e. omega (arith, e)),
      ((λ e. omega (arith, e)), (λ e. omega (arith, e)), (λ e. omega (arith, e)), tt),
    ),
  ),
)

cd-Plain : Plain cd
cd-Plain = (
  (λ e. omega (arith, e)),
  (λ e. omega (arith, e)),
  (λ e. omega (arith, e)),
  ((λ e. omega (arith, e)), (λ e. omega (arith, e)), (λ e. omega (arith, e)), tt),
)

-- The line `root p` with a number typed, and then the line `cd` and a path, with spaces between and
-- behind and each of at most 256 bytes, where a driver d is the
-- first of the list for the type of the partition of that number, and has the two entries: `root`
-- reports nothing, and `cd` takes for the new directory just what d's entry returns for the path, or
-- reports the code that it returns. The path is not empty and has no space, tab or backslash, and
-- the byte before the buffer is no backslash.
pub run_line-root_cd :
    (o : Outside) (w : Shown) (s : Fs) (before i j k l : ℕ) (digits path : List ℕ)
    (pre : List Driver) (d : Driver) (ds : List Driver)
    → before ≢ 92
    → AllDigits digits
    → path ≢ []
    → Plain path
    → length (line ((root, i) ∷ (112 ∷ digits, j) ∷ [])) ≤ cmdlen
    → length (line ((cd, k) ∷ (path, l) ∷ [])) ≤ cmdlen
    → s.drv_list ≡ pre ++ d ∷ ds
    → NoneFor (find_partition (dec_value 0 digits % 2 ^ 32) w.roots w.last_root).type_byte pre
    → d.fs_type_byte ≡ (find_partition (dec_value 0 digits % 2 ^ 32) w.roots w.last_root).type_byte
    → d.sym_chdir ≢ 0
    → d.sym_loadfile ≢ 0
    → (s' : Fs) × (run_line o w s before (line ((root, i) ∷ (112 ∷ digits, j) ∷ []))
        ≡ some (s', [], unset))
      × (run_line o w s' before (line ((cd, k) ∷ (path, l) ∷ []))
          ≡ some (moved s' (o.calls.chdir d.sym_chdir path)))
unfolding call
run_line-root_cd o w s before i j k l digits path pre d ds n dg ne pl fits1 fits2 list nf t c f =
    let num = dec_value 0 digits % 2 ^ 32 in
    let (s', run, prop, chdir, loadfile) =
      fs_root_first o.calls s w.roots w.last_root num pre d ds list nf t c f in
    let words1 : Words ((root, i) ∷ (112 ∷ digits, j) ∷ []) = (
      (λ e. cc),
      root-Plain,
      (
        (λ e. cc),
        (
          (λ e. omega (arith, e)),
          (λ e. omega (arith, e)),
          (λ e. omega (arith, e)),
          AllDigits-Plain digits dg,
        ),
        tt,
      ),
    ) in
    let words2 : Words ((cd, k) ∷ (path, l) ∷ []) = ((λ e. cc), cd-Plain, (ne, pl, tt)) in
    (
      s',
      run_line-called o w s before 9 114 i (111 ∷ 111 ∷ 116 ∷ []) ((112 ∷ digits, j) ∷ []) n words1
            fits1 root_place
          ∙ ap some (
              cmd_root_done o s s' w.roots w.last_root num
                (table w.behind (root ∷ (112 ∷ digits) ∷ [])) digits refl
                (number-AllDigits o.junk digits dg) run),
      run_line-called o w s' before 2 99 k (100 ∷ []) ((path, l) ∷ []) n words2 fits2 cd_place
          ∙ ap some (
              cmd_cd_done o s' (o.calls.chdir d.sym_chdir path) (table w.behind (cd ∷ path ∷ []))
                (chdir path)),
    )
