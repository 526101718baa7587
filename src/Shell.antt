-- ===== src/Shell.antt =====
-- src/utils/shell.c: the command line. A string is the list of its bytes without the NUL; what the
-- commands do when they are called is outside.
pub mod Split
pub mod Echo
pub mod Dispatch
pub mod Editor
mod Tests
use janus.Base.{
  ℕ, zero, suc, ◌+◌, ◌-◌, ◌*◌, ◌<◌, Bool, true, false, ◌&&◌, ◌||◌, not, Option, none, some, List,
  [], ◌∷◌, ◌++◌, ◌==◌, if◌then◌else◌, leb, ltb, length, same_text, ◌>>=◌,
}
use janus.Base.Int.{ℤ, pos, negsuc}

-- ARGNUM
abbrev pub argnum : ℕ
argnum = 255

-- CMDLEN: `sc` has a byte more, for the NUL.
abbrev pub cmdlen : ℕ
cmdlen = 256

-- ISSPACE
abbrev pub is_space : ℕ → Bool
is_space c = (c == 32) || (c == 9)

-- The string from the first character that is no space on, and the index less the spaces passed.
pub strip_leading_whitespace : List ℕ → (index : ℕ) → List ℕ × ℕ
strip_leading_whitespace [] index = ([], index)
strip_leading_whitespace (c ∷ cs) index =
    let rest = strip_leading_whitespace cs (index - 1) in
    if is_space c then rest else (c ∷ cs, index)

-- The test that ends an argument: a space not behind a backslash, or a tab. `prev` is the
-- character before.
abbrev pub ends_arg : (prev c : ℕ) → Bool
ends_arg prev c = ((c == 32) && not (prev == 92)) || (c == 9)

-- The first inner loop of `shell_gen_args`: the argument, the character before `ccp` and the rest.
pub scan_arg : (prev : ℕ) → List ℕ → List ℕ × ℕ × List ℕ
scan_arg prev [] = ([], prev, [])
scan_arg prev (c ∷ cs) =
    let (arg, p, rest) = scan_arg c cs in
    if ends_arg prev c then ([], prev, c ∷ cs) else (c ∷ arg, p, rest)

-- The second, which writes NUL over each space and moves on; `0` is then the character before.
pub skip_spaces : (prev : ℕ) → List ℕ → ℕ × List ℕ
skip_spaces prev [] = (prev, [])
skip_spaces prev (c ∷ cs) =
    let rest = skip_spaces 0 cs in if is_space c then rest else (prev, c ∷ cs)

prepend : List ℕ → Option (List (List ℕ)) → Option (List (List ℕ))
prepend a none = none
prepend a (some l) = some (a ∷ l)

-- The outer loop, on fuel: the arguments, or `none` for FAILURE. On fuel for every character it
-- does not run out.
pub gen_args : (fuel : ℕ) → (args : ℕ) → (prev : ℕ) → List ℕ → Option (List (List ℕ))
unfolding scan_arg skip_spaces prepend
gen_args zero args prev s = none
gen_args (suc fuel) args prev [] = some []
gen_args (suc fuel) args prev (c ∷ cs) =
    let (arg, p, s1) = scan_arg prev (c ∷ cs) in
    let (p', s2) = skip_spaces p s1 in
    let rest = prepend arg (gen_args fuel (args + 1) p' s2) in
    if leb argnum args then none else rest

-- `before` is the byte in front of the buffer `sc`, which the test of the first character reads.
-- `none` is that the copy of the line overruns `sc`, `some none` FAILURE.
pub shell_gen_args : (before : ℕ) → List ℕ → Option (Option (List (List ℕ)))
unfolding gen_args
shell_gen_args before c =
    if leb (length c) cmdlen then some (gen_args (suc (length c)) 0 before c) else none

-- The names in `cmdtab`: help, ls, cd, reboot, clear, ppart, more, load, ldmod, root, lsdrv,
-- rmdrv, chload and dump.
abbrev pub cmdtab : List (List ℕ)
cmdtab =
    (104 ∷ 101 ∷ 108 ∷ 112 ∷ [])
    ∷ (108 ∷ 115 ∷ [])
    ∷ (99 ∷ 100 ∷ [])
    ∷ (114 ∷ 101 ∷ 98 ∷ 111 ∷ 111 ∷ 116 ∷ [])
    ∷ (99 ∷ 108 ∷ 101 ∷ 97 ∷ 114 ∷ [])
    ∷ (112 ∷ 112 ∷ 97 ∷ 114 ∷ 116 ∷ [])
    ∷ (109 ∷ 111 ∷ 114 ∷ 101 ∷ [])
    ∷ (108 ∷ 111 ∷ 97 ∷ 100 ∷ [])
    ∷ (108 ∷ 100 ∷ 109 ∷ 111 ∷ 100 ∷ [])
    ∷ (114 ∷ 111 ∷ 111 ∷ 116 ∷ [])
    ∷ (108 ∷ 115 ∷ 100 ∷ 114 ∷ 118 ∷ [])
    ∷ (114 ∷ 109 ∷ 100 ∷ 114 ∷ 118 ∷ [])
    ∷ (99 ∷ 104 ∷ 108 ∷ 111 ∷ 97 ∷ 100 ∷ [])
    ∷ (100 ∷ 117 ∷ 109 ∷ 112 ∷ [])
    ∷ []

-- The commands of `cmdtab` by their place in it, 0 to 13; `none` is that there is no such command.
unfoldable pub find_command : (x : ℕ) → (names : List (List ℕ)) → (name : List ℕ) → Option ℕ
find_command x [] name = none
find_command x (n ∷ ns) name =
    let rest = find_command (x + 1) ns name in if same_text n name then some x else rest

pub skip_blanks : List ℕ → List ℕ
skip_blanks [] = []
skip_blanks (c ∷ cs) = let rest = skip_blanks cs in if is_space c then rest else c ∷ cs

-- What `shell_parse` comes to: an overrun of `sc`, FAILURE with no command run, `shell_exec`
-- printing that there is no such command, or the call of the command at a place of `cmdtab` with
-- these arguments.
pub data Parsed : Type 0 where
  overrun failure : Parsed
  cannot_exec : (name : List ℕ) → Parsed
  called : (place : ℕ) → (argv : List (List ℕ)) → Parsed

-- By the place where the name was found.
executed : (name : List ℕ) → (args : List (List ℕ)) → Option ℕ → Parsed
executed name args none = cannot_exec name
executed name args (some x) = called x (name ∷ args)

shell_exec : (argv : List (List ℕ)) → Parsed
unfolding find_command executed
shell_exec [] = failure
shell_exec (name ∷ args) = executed name args (find_command 0 cmdtab name)

shell_run : Option (Option (List (List ℕ))) → Parsed
unfolding shell_exec
shell_run none = overrun
shell_run (some none) = failure
shell_run (some (some argv)) = shell_exec argv

shell_dispatch : (before : ℕ) → List ℕ → Parsed
unfolding shell_gen_args shell_run
shell_dispatch before [] = failure
shell_dispatch before (c ∷ cs) = shell_run (shell_gen_args before (c ∷ cs))

unfoldable pub shell_parse : (before : ℕ) → List ℕ → Parsed
unfolding shell_dispatch skip_blanks
shell_parse before input = shell_dispatch before (skip_blanks input)

-- `shell_panic`: SUCCESS, that a message is printed, for the codes -1, -5 to -10 and -13 to -16.
unfoldable pub shell_panic : ℤ → Bool
shell_panic (pos n) = false
shell_panic (negsuc n) = (n == 0) || (leb 4 n && leb n 9) || (leb 12 n && leb n 15)

pub but_last : List ℕ → List ℕ
but_last [] = []
but_last (c ∷ []) = []
but_last (c ∷ d ∷ cs) = c ∷ but_last (d ∷ cs)

-- `getline` up to ENTER, 10: a BACKSPACE, 8, takes back the last character. `none` is that the keys
-- end first. The byte behind the line is taken not to be a space.
pub edit : (typed : List ℕ) → (keys : List ℕ) → Option (List ℕ)
unfolding but_last
edit typed [] = none
edit typed (k ∷ ks) =
    let erased = edit (but_last typed) ks in
    let added = edit (typed ++ k ∷ []) ks in
    if k == 10 then some typed else if k == 8 then erased else added

pub getline : (keys : List ℕ) → Option (List ℕ)
unfolding edit strip_leading_whitespace
getline keys = edit [] keys >>= (λ line. some (strip_leading_whitespace line (length line)).0)
