-- ===== src/Idt/Copy.antt =====
-- `init_gdt` of src/kernel/idt.c: the copy of the descriptor table into `gdt_reg`. The words behind
-- the pointer that `sgdt` was given are an argument; what is printed is left out.
use janus.Base.{
  ℕ, zero, suc, ◌+◌, ◌*◌, ◌≤◌, ◌≡◌, refl, ◌==◌, if◌then◌else◌, ltb, leb, ◌&&◌, arith, Bool-cases,
  inl, inr, true, false, ap, sym, subst,
}

-- `gdt_reg[i] = v`
abbrev put : (ℕ → ℕ) → (i v : ℕ) → ℕ → ℕ
put reg i v j = if j == i then v else reg j

-- The rounds left, `i`, and the words from the first one on.
gdt_rounds : (k i : ℕ) → (words gdt_reg : ℕ → ℕ) → ℕ → ℕ
gdt_rounds zero i words reg = reg
gdt_rounds (suc k) i words reg = gdt_rounds k (i + 4) words (
    put
      (put (put (put reg (i + 0) (words (i + 0))) (i + 1) (words (i + 1))) (i + 2) (words (i + 2)))
      (i + 3) (words (i + 3)))

-- `for(i=0;i<=80;i+=4)`
pub init_gdt : (words gdt_reg : ℕ → ℕ) → ℕ → ℕ
unfolding gdt_rounds
init_gdt words reg = gdt_rounds 21 0 words reg

-- The words from `i` up to `n` in their places.
abbrev Copied : (words reg : ℕ → ℕ) → (i n : ℕ) → (ℕ → ℕ) → Type 0
Copied words reg i n f = (j : ℕ) → f j ≡ (if leb i j && ltb j n then words j else reg j)

put-Copied :
    (words reg f : ℕ → ℕ) (i n : ℕ)
    → i ≤ n
    → Copied words reg i n f
    → Copied words reg i (n + 1) (put f n (words n))
put-Copied words reg f i n le c j = elim (Bool-cases (j == n)) [
  | inl e ↦
      let same : j ≡ n = ground (arith, e) in
      let low : leb i j ≡ true = ground (arith, e) in
      let high : ltb j (n + 1) ≡ true = ground (arith, e) in rw (e, low, high) (ap words (sym same))
  | inr e ↦ let high : ltb j (n + 1) ≡ ltb j n = ground (arith, e) in rw (e, high) (c j)
]

Copied-end :
    (words reg f : ℕ → ℕ) (i m n : ℕ) → m ≡ n → Copied words reg i m f → Copied words reg i n f
Copied-end words reg f i m n e c = subst (λ x. Copied words reg i x f) e c

gdt_rounds-Copied :
    (k i : ℕ) (words reg f : ℕ → ℕ)
    → Copied words reg 0 i f
    → Copied words reg 0 (i + 4 * k) (gdt_rounds k i words f)
unfolding gdt_rounds
gdt_rounds-Copied zero i words reg f c = Copied-end words reg f 0 i (i + 4 * 0) (omega arith) c
gdt_rounds-Copied (suc k) i words reg f c =
    let f0 = put f (i + 0) (words (i + 0)) in
    let f1 = put f0 (i + 1) (words (i + 1)) in
    let f2 = put f1 (i + 2) (words (i + 2)) in
    let f3 = put f2 (i + 3) (words (i + 3)) in
    let c0 =
      put-Copied words reg f 0 (i + 0) (omega arith)
        (Copied-end words reg f 0 i (i + 0) (omega arith) c) in
    let c1 =
      put-Copied words reg f0 0 (i + 1) (omega arith)
        (Copied-end words reg f0 0 (i + 0 + 1) (i + 1) (omega arith) c0) in
    let c2 =
      put-Copied words reg f1 0 (i + 2) (omega arith)
        (Copied-end words reg f1 0 (i + 1 + 1) (i + 2) (omega arith) c1) in
    let c3 =
      put-Copied words reg f2 0 (i + 3) (omega arith)
        (Copied-end words reg f2 0 (i + 2 + 1) (i + 3) (omega arith) c2) in
    Copied-end words reg (gdt_rounds k (i + 4) words f3) 0 (i + 4 + 4 * k) (i + 4 * suc k)
      (omega arith)
      (gdt_rounds-Copied k (i + 4) words reg f3
        (Copied-end words reg f3 0 (i + 3 + 1) (i + 4) (omega arith) c3))

-- `init_gdt` copies the first 84 words, 21 descriptors, to their places, and leaves the other
-- entries of the array as they were.
init_gdt_lem : (words reg : ℕ → ℕ) → Copied words reg 0 84 (init_gdt words reg)
unfolding init_gdt
init_gdt_lem words reg =
    gdt_rounds-Copied 21 0 words reg reg
      (λ j. let none_yet : (leb 0 j && ltb j 0) ≡ false = ground arith in rw none_yet refl)
