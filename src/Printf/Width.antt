-- ===== src/Printf/Width.antt =====
-- Fields: how long the output of a conversion is, and that its text is in it.
use janus.Base.{
  ℕ, ◌+◌, ◌-◌, ◌≡◌, refl, true, false, ◌&&◌, not, List, [], ◌∷◌, ◌++◌, if◌then◌else◌, length,
  length-append, length-replicate, replicate, arith, max, Bool-cases, inl, inr, append-nil,
}
use janus.Printf.{Flags, emit, emit_text}

-- The characters of sign and text.
abbrev pub used : Flags → List ℕ → ℕ
used f t = if f.num0 then length t + 1 else length t

sign_length :
    (f : Flags)
    → length {A = ℕ} (if f.num0 && not f.zeropad then 45 ∷ [] else [])
        + length {A = ℕ} (if f.num0 && f.zeropad then 45 ∷ [] else [])
      ≡ (if f.num0 then 1 else 0)
sign_length f = ground arith

-- A field is as wide as asked for, or as its sign and text need where that is more.
length-emit_text : (f : Flags) (wd : ℕ) (t : List ℕ) → length (emit_text f wd t) ≡ max wd (used f t)
unfolding emit_text emit
length-emit_text f wd t =
    let sign1 : List ℕ = if f.num0 && f.zeropad then 45 ∷ [] else [] in
    let sign2 : List ℕ = if f.num0 && not f.zeropad then 45 ∷ [] else [] in
    let n = used f t in
    let left : ℕ = if f.ljfy then 0 else wd - n in
    let pad : List ℕ = replicate left (if f.zeropad then 48 else 32) in
    let tail : List ℕ = replicate (wd - left - n) 32 in
    let total : left + (if f.num0 then 1 else 0) + length t + (wd - left - n) ≡ max wd n =
      ground arith in
    omega (
      arith,
      length-append sign1 (pad ++ (sign2 ++ (t ++ tail))),
      length-append pad (sign2 ++ (t ++ tail)),
      length-append sign2 (t ++ tail),
      length-append t tail,
      length-replicate {A = ℕ} left (if f.zeropad then 48 else 32),
      length-replicate {A = ℕ} (wd - left - n) 32,
      sign_length f,
      total,
    )

-- With zeroes on the left: the sign, then zeroes, then the text, which ends the field.
emit_text-zeropad :
    (f : Flags) (wd : ℕ) (t : List ℕ)
    → f.ljfy ≡ false
    → f.zeropad ≡ true
    → emit_text f wd t ≡ (
        if f.num0
        then 45 ∷ (replicate (wd - (length t + 1)) 48 ++ t)
        else replicate (wd - length t) 48 ++ t)
unfolding emit_text emit
emit_text-zeropad f wd t l z = elim (Bool-cases f.num0) [
  | inl n ↦
      let none_right : wd - (wd - (length t + 1)) - (length t + 1) ≡ 0 = omega arith in
      rw (l, z, n, none_right, append-nil) refl
  | inr n ↦
      let none_right : wd - (wd - length t) - length t ≡ 0 = omega arith in
      rw (l, z, n, none_right, append-nil) refl
]
