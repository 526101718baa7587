-- ===== src/Commands/Help.antt =====
-- `cmd_help` of src/utils/shell_builtin.c and `shell_exec` of src/utils/shell.c look for a command
-- from opposite ends of the table.
use janus.Base.{
  ℕ, zero, suc, ◌+◌, ◌-◌, ◌≡◌, refl, subst, ◌∙◌, Bool, true, false, Option, none, some, List, [],
  ◌∷◌, same_text, same_text-eq, same_text_self, not, ◌&&◌, Bool-cases, inl, inr, leb, arith,
  if◌then◌else◌, length,
}
use janus.Shell.{cmdtab, find_command}
use janus.Fs.{Fs}
use janus.Commands.{
  Act, Done, command_count, command_name, command_help, command_not_found, success,
}

-- The names from the last one back.
names_back : (elements : ℕ) → List Act
names_back zero = []
names_back (suc k) = command_name k ∷ names_back k

-- The command found behind, or this one where it is `here`.
abbrev pub or_here : (x : ℕ) → (here : Bool) → Option ℕ → Option ℕ
or_here x here none = if here then some x else none
or_here x here (some y) = some y

-- The search of `cmd_help`, from the last place back.
pub find_help : (x : ℕ) → (names : List (List ℕ)) → (name : List ℕ) → Option ℕ
find_help x [] name = none
find_help x (n ∷ ns) name = or_here x (same_text name n) (find_help (x + 1) ns name)

-- What is printed for one argument, by the place where it was found.
abbrev pub told : (name : List ℕ) → Option ℕ → Act
told name none = command_not_found name
told name (some bar) = command_help bar

help_of : List ℕ → Act
unfolding find_help
help_of name = told name (find_help 0 cmdtab name)

-- The arguments from `foo` down to 1.
helps_back : (foo : ℕ) → (argv : ℕ → List ℕ) → List Act
unfolding help_of
helps_back zero argv = []
helps_back (suc k) argv = help_of (argv (suc k)) ∷ helps_back k argv

unfoldable pub cmd_help : Fs → (argc : ℕ) → (argv : ℕ → List ℕ) → Done
unfolding names_back helps_back
cmd_help s argc argv = (
  s,
  (if leb argc 1
      then command_count (length cmdtab) ∷ names_back (length cmdtab)
      else helps_back (argc - 1) argv),
  success,
)

-- No name of the list is this one.
absent : List ℕ → List (List ℕ) → Bool
absent n [] = true
absent n (m ∷ ms) = not (same_text n m) && absent n ms

all_different : List (List ℕ) → Bool
unfolding absent
all_different [] = true
all_different (n ∷ ns) = absent n ns && all_different ns

same_text_comm : (xs ys : List ℕ) → same_text xs ys ≡ same_text ys xs
same_text_comm [] [] = refl
same_text_comm [] (y ∷ ys) = refl
same_text_comm (x ∷ xs) [] = refl
same_text_comm (x ∷ xs) (y ∷ ys) = ground (arith, same_text_comm xs ys)

both : (a b : Bool) → (not a && b) ≡ true → (a ≡ false) × (b ≡ true)
both a b e = ground arith

left : (a b : Bool) → (a && b) ≡ true → a ≡ true
left a b e = ground arith

right : (a b : Bool) → (a && b) ≡ true → b ≡ true
right a b e = ground arith

find_help-none :
    (x : ℕ) (ns : List (List ℕ)) (name : List ℕ)
    → absent name ns ≡ true
    → find_help x ns name ≡ none
unfolding find_help absent
find_help-none x [] name a = refl
find_help-none x (n ∷ ns) name a =
    let (e, a') = both (same_text name n) (absent name ns) a in
    rw (find_help-none (x + 1) ns name a', e) refl

same : (x : ℕ) (o : Option ℕ) → or_here x false o ≡ o
same x none = refl
same x (some y) = refl

find_help-find_command :
    (x : ℕ) (ns : List (List ℕ)) (name : List ℕ)
    → all_different ns ≡ true
    → find_help x ns name ≡ find_command x ns name
unfolding find_help find_command all_different
find_help-find_command x [] name d = refl
find_help-find_command x (n ∷ ns) name d = elim (Bool-cases (same_text n name)) [
  | inl e ↦
      subst (λ m. find_help x (n ∷ ns) m ≡ find_command x (n ∷ ns) m) (same_text-eq n name e)
        (rw
          (find_help-none (x + 1) ns n (left (absent n ns) (all_different ns) d), same_text_self n)
          refl)
  | inr e ↦
      let d' = right (absent n ns) (all_different ns) d in
      let e' : same_text name n ≡ false = same_text_comm name n ∙ e in
      rw (find_help-find_command (x + 1) ns name d', e, e') (same x (find_command (x + 1) ns name))
]

-- What the shell has to say of each argument, from the last one back: the help of the command that
-- it would call by that name, or that there is none.
abbrev pub answers : (k : ℕ) → (argv : ℕ → List ℕ) → List Act
answers zero argv = []
answers (suc k) argv = told (argv (suc k)) (find_command 0 cmdtab (argv (suc k))) ∷ answers k argv

cmdtab_different : all_different cmdtab ≡ true
unfolding all_different
cmdtab_different = refl

helps_back-answers : (k : ℕ) (argv : ℕ → List ℕ) → helps_back k argv ≡ answers k argv
unfolding helps_back help_of
helps_back-answers zero argv = refl
helps_back-answers (suc k) argv =
    rw (find_help-find_command 0 cmdtab (argv (suc k)) cmdtab_different, helps_back-answers k argv)
      refl

-- `help` with arguments prints for each of them, from the last one back, the help of just the
-- command that the shell calls by that name, or that there is no such command.
pub cmd_help-shell :
    (s : Fs) (k : ℕ) (argv : ℕ → List ℕ)
    → cmd_help s (suc (suc k)) argv ≡ (s, answers (suc k) argv, success)
unfolding cmd_help
cmd_help-shell s k argv =
    let more : leb (suc (suc k)) 1 ≡ false = ground arith in
    let one_less : suc (suc k) - 1 ≡ suc k = omega arith in
    rw (more, one_less, helps_back-answers (suc k) argv) refl
