-- ===== src/Printf.antt =====
-- src/kernel/kprintf.c: `vsnprintf`. A string is the list of its bytes without the NUL, and so is
-- the output. The size of the buffer has no part in it, since the code does not look at it.
pub mod Digits
pub mod Width
pub mod Formats
pub mod Single
mod Tests
use janus.Base.{
  ℕ, zero, suc, ◌+◌, ◌-◌, ◌*◌, ◌/◌, ◌%◌, ◌^◌, Bool, true, false, ◌&&◌, ◌||◌, not, Option, none,
  some, List, [], ◌∷◌, ◌++◌, ◌==◌, if◌then◌else◌, ltb, leb, length, replicate, ◌>>=◌, min,
}

-- The flags: PR_LJFY, PR_CAPS, PR_SIGN, PR_NUM32, PR_NUM16, PR_NUM0 and PR_ZEROPAD. PR_FARPTR is
-- set and never read.
pub record Flags : Type 0 where
  pub ljfy : Bool
  pub caps : Bool
  pub signed : Bool
  pub num32 : Bool
  pub num16 : Bool
  pub num0 : Bool
  pub zeropad : Bool

abbrev pub no_flags : Flags
no_flags = record {
  ljfy = false;
  caps = false;
  signed = false;
  num32 = false;
  num16 = false;
  num0 = false;
  zeropad = false;
}

-- An argument: a word of 32 bits, or a pointer to a string.
pub data Arg : Type 0 where
  word : ℕ → Arg
  text : List ℕ → Arg

-- One digit; `n` is below 16.
abbrev pub digit : (caps : Bool) → ℕ → ℕ
digit caps n = if ltb n 10 then n + 48 else if caps then n - 10 + 65 else n - 10 + 97

-- The do loop, into the buffer from its end on. On fuel, since `num` of 32 bits has at most 11
-- digits where the radix is 8 or more.
pub digits_of : (fuel : ℕ) → (caps : Bool) → (radix num : ℕ) → (where_ : List ℕ) → List ℕ
digits_of zero caps radix num w = w
digits_of (suc fuel) caps radix num w =
    let rest = digits_of fuel caps radix (num / radix) (digit caps (num % radix) ∷ w) in
    if num / radix == 0 then digit caps (num % radix) ∷ w else rest

-- What `num` gets from the argument, as a word.
pub load : Flags → (x : ℕ) → ℕ
load f x =
    if f.num32
    then x
    else if f.num16
    then if f.signed && leb (2 ^ 15) (x % 2 ^ 16)
      then x % 2 ^ 16 + (2 ^ 32 - 2 ^ 16)
      else x % 2 ^ 16
    else x

abbrev pub is_negative : Flags → (num : ℕ) → Bool
is_negative f num = f.signed && leb (2 ^ 31) num

-- From EMIT2 on: padding, sign and text; `actual_wd` does not count what is written.
pub emit : Flags → (given_wd actual_wd : ℕ) → List ℕ → List ℕ
emit f wd actual t =
    let left = if f.ljfy then 0 else wd - actual in
    let wd' = wd - left in
    replicate left (if f.zeropad then 48 else 32)
    ++ ((if f.num0 && not f.zeropad then 45 ∷ [] else []) ++ (t ++ replicate (wd' - actual) 32))

-- From EMIT on.
pub emit_text : Flags → (given_wd : ℕ) → List ℕ → List ℕ
unfolding emit
emit_text f wd t =
    (if f.num0 && f.zeropad then 45 ∷ [] else [])
    ++ emit f wd (if f.num0 then length t + 1 else length t) t

pub emit_number : Flags → (given_wd radix x : ℕ) → List ℕ
unfolding emit_text load digits_of
emit_number f wd radix x =
    let num = load f x in
    let neg = is_negative f num in
    emit_text (record f { num0 = neg }) wd
      (digits_of 11 f.caps radix (if neg then 2 ^ 32 - num else num) [])

-- A number or a string where the format asks for one; `none` where there is no such argument.
pub with_word : (ℕ → List ℕ) → List Arg → Option (List ℕ × List Arg)
with_word k [] = none
with_word k (word x ∷ args) = some (k x, args)
with_word k (text t ∷ args) = none

pub with_text : (List ℕ → List ℕ) → List Arg → Option (List ℕ × List Arg)
with_text k [] = none
with_text k (word x ∷ args) = none
with_text k (text t ∷ args) = some (k t, args)

-- A character; NUL prints nothing, with its width.
abbrev pub char_text : ℕ → List ℕ
char_text c = if c == 0 then [] else c ∷ []

-- State 4, the conversion characters X x p n d i u o c s.
pub convert : Flags → (given_wd : ℕ) → (c : ℕ) → List Arg → Option (List ℕ × List Arg)
unfolding emit_number emit_text emit with_word with_text
convert f wd c args =
    if c == 88
    then with_word (emit_number (record f { caps = true }) wd 16) args
    else if (c == 120) || (c == 112) || (c == 110)
    then with_word (emit_number f wd 16) args
    else if (c == 100) || (c == 105)
    then with_word (emit_number (record f { signed = true }) wd 10) args
    else if c == 117
    then with_word (emit_number f wd 10) args
    else if c == 111
    then with_word (emit_number f wd 8) args
    else if c == 99
    then with_word (λ x. emit (record f { zeropad = false }) wd 1 (char_text (x % 256))) args
    else if c == 115
    then with_text (λ t. emit_text (record f { zeropad = false }) wd t) args
    else some ([], args)

-- The states 0 to 3 between two characters. `opened` and `zeroed` are 1 and 2 where the code has
-- just moved on behind a `%` or a `0`, without the test for the end of the format.
pub data Mode : Type 0 where
  plain : Mode
  opened : Mode
  flagged : Mode
  zeroed : Mode
  width : Mode
  modifier : Mode

-- What one character comes to.
pub record Step : Type 0 where
  pub mode : Mode
  pub flags : Flags
  pub given_wd : ℕ
  pub out : List ℕ
  pub args : List Arg

abbrev pub move : Mode → Flags → (given_wd : ℕ) → List Arg → Option Step
move m f wd args = some record { mode = m; flags = f; given_wd = wd; out = []; args = args }

abbrev pub reset : List ℕ → List Arg → Option Step
reset out args =
    some record { mode = plain; flags = no_flags; given_wd = 0; out = out; args = args }

pub step_modifier : Flags → (given_wd : ℕ) → (c : ℕ) → List Arg → Option Step
unfolding convert
step_modifier f wd c args =
    if (c == 70) || (c == 78)
    then move modifier f wd args
    else if c == 108
    then move modifier (record f { num32 = true }) wd args
    else if c == 104
    then move modifier (record f { num16 = true }) wd args
    else convert f wd c args >>= (λ r. reset r.0 r.1)

pub step_width : Flags → (given_wd : ℕ) → (c : ℕ) → List Arg → Option Step
unfolding step_modifier
step_width f wd c args =
    if leb 48 c && leb c 57
    then move width f ((10 * wd + (c - 48)) % 2 ^ 32) args
    else step_modifier f wd c args

pub step_flags : Flags → (given_wd : ℕ) → (c : ℕ) → List Arg → Option Step
unfolding step_width
step_flags f wd c args =
    if c == 37
    then reset (37 ∷ []) args
    else if c == 45
    then if f.ljfy then reset [] args else move flagged (record f { ljfy = true }) wd args
    else if c == 48
    then move zeroed (record f { zeropad = true }) wd args
    else step_width f wd c args

pub step : Mode → Flags → (given_wd : ℕ) → (c : ℕ) → List Arg → Option Step
unfolding step_flags
step plain f wd c args =
    if c == 37
    then move opened f wd args
    else some record { mode = plain; flags = f; given_wd = wd; out = c ∷ []; args = args }
step opened f wd c args = step_flags f wd c args
step flagged f wd c args = step_flags f wd c args
step zeroed f wd c args = step_width f wd c args
step width f wd c args = step_width f wd c args
step modifier f wd c args = step_modifier f wd c args

-- The loop. Behind a `%` or a `0` at the end of the format the code passes the NUL: `none`.
pub format : Mode → Flags → (given_wd : ℕ) → List ℕ → List Arg → Option (List ℕ)
unfolding step
format opened f wd [] args = none
format zeroed f wd [] args = none
format plain f wd [] args = some []
format flagged f wd [] args = some []
format width f wd [] args = some []
format modifier f wd [] args = some []
format m f wd (c ∷ cs) args =
    step m f wd c args
    >>= (λ s. format s.mode s.flags s.given_wd cs s.args >>= (λ rest. some (s.out ++ rest)))

-- The string and the count that is returned.
pub vsnprintf : (fmt : List ℕ) → List Arg → Option (List ℕ × ℕ)
unfolding format
vsnprintf fmt args = format plain no_flags 0 fmt args >>= (λ s. some (s, length s))
