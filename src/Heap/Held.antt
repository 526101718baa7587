-- ===== src/Heap/Held.antt =====
-- One call of `kmalloc` or `kfree` of src/mm/kmalloc.c, on a heap that is a row of tiles whose
-- blocks in use are known.
use janus.Base.{
  ℕ, ◌+◌, ◌-◌, ◌*◌, ◌≤◌, ◌≡◌, ◌≢◌, sym, subst, ◌∙◌, ap, ◌⊎◌, inl, inr, Option, none, some, List, [],
  ◌∷◌, arith, ◌==◌, length, Bool-cases, false, some-injective, none-ne-some,
}
use janus.Heap.{Heap, base, total, units, kmalloc, kfree}
use janus.Heap.Tiles.{Tile, free, width, widths, Headed}
use janus.Heap.Rows.{Tiled, Taken, release}
use janus.Heap.Rings.{In}
use janus.Heap.Freeing.{UsedAt}
use janus.Heap.Released.{Released, kfree-release}
use janus.Heap.Requests.{Served, kmalloc-Served}
use janus.Heap.Live.{
  without, Step, met, refused, freed, Held, UsedAt-Taken, Taken-UsedAt, release-UsedAt,
  UsedAt-release,
}

In-without : (b c : ℕ) (cs : List ℕ) → c ≢ b → In c cs → In c (without b cs)
In-without b c [] ne i = i
In-without b c (d ∷ cs) ne (inl e) =
    let other : (d == b) ≡ false = ground (arith, e, ne) in rw other (inl e)
In-without b c (d ∷ cs) ne (inr i) = elim (Bool-cases (d == b)) [
  | inl e ↦ rw e (In-without b c cs ne i)
  | inr e ↦ rw e (inr (In-without b c cs ne i))
]

in_rest : (d c : ℕ) (cs : List ℕ) → In c (d ∷ cs) → (c ≡ d) ⊎ In c cs
in_rest d c cs i = i

without-In : (b c : ℕ) (cs : List ℕ) → In c (without b cs) → In c cs × (c ≢ b)
without-In b c [] i = absurd i
without-In b c (d ∷ cs) i = elim (Bool-cases (d == b)) [
  | inl e ↦ let (j, ne) = without-In b c cs (rw e at i) in (inr j, ne)
  | inr e ↦ elim (in_rest d c (without b cs) (rw e at i)) [
    | inl j ↦ (inl j, λ z. ground (arith, j, z, e))
    | inr j ↦ let (k, ne) = without-In b c cs j in (inr k, ne)
  ]
]

-- A heap of so many blocks has as many units.
length-widths : (s : ℕ → ℕ) (a : ℕ) (ts : List Tile) → Headed s a ts → length ts ≤ widths ts
length-widths s a [] h = omega arith
length-widths s a (t ∷ ts) (e, w, h) = omega (arith, w, length-widths s (a + width t) ts h)

-- The state with its row.
abbrev pub Holds : Heap → List ℕ → Type 0
Holds h live = (n : ℕ) × (ts : List Tile) × Held h live n ts

Holds-met :
    (h h' : Heap) (live : List ℕ) (n n' u b : ℕ) (ts ts' : List Tile)
    → Held h live n ts
    → Taken u b base (free n ∷ ts) (free n' ∷ ts')
    → Tiled h' n' ts'
    → Held h' (b ∷ live) n' ts'
Holds-met h h' live n n' u b ts ts' d t i = record {
  tiled = i;
  in_row = λ c j. elim j [
    | inl e ↦ Taken-UsedAt u b c base (free n ∷ ts) (free n' ∷ ts') t (inl e)
    | inr k ↦ Taken-UsedAt u b c base (free n ∷ ts) (free n' ∷ ts') t (inr (d.in_row c k))
  ];
  in_live = λ c j. elim (UsedAt-Taken u b c base (free n ∷ ts) (free n' ∷ ts') t j) [
    | inl e ↦ inl e
    | inr k ↦ inr (d.in_live c k)
  ];
}

Holds-freed :
    (h h' : Heap) (live : List ℕ) (n n' b : ℕ) (ts ts' : List Tile)
    → Held h live n ts
    → In b live
    → free n' ∷ ts' ≡ release base b (free n ∷ ts)
    → Tiled h' n' ts'
    → Held h' (without b live) n' ts'
Holds-freed h h' live n n' b ts ts' d i e t =
    let old = d.tiled in
    record {
      tiled = t;
      in_row = λ c j.
          let (k, ne) = without-In b c live j in
          subst (λ x. UsedAt c base x) (sym e)
            (release-UsedAt b c base (free n ∷ ts) ne (d.in_row c k));
      in_live = λ c j.
          let (k, ne) =
            UsedAt-release h.size b c base (free n ∷ ts) (old.first, old.room, old.heads)
              (d.in_row b i) (subst (λ x. UsedAt c base x) e j) in
          In-without b c live ne (d.in_live c k);
    }

-- Fuel for all of the kernel's memory is enough for each call.
pub served :
    (fuel : ℕ) (h : Heap) (live : List ℕ) (nbytes n : ℕ) (ts : List Tile)
    → 2 * total ≤ fuel
    → Held h live n ts
    → h.size base ≢ units nbytes
    → Served (units nbytes) h n ts (kmalloc fuel h nbytes)
served fuel h live nbytes n ts fu d ne =
    let t = d.tiled in
    let room = t.room in
    let whole = t.whole in
    let long = length-widths h.size (base + n) ts t.heads in
    kmalloc-Served fuel h nbytes n ts t (omega (arith, fu, room, whole, long))
      (λ e. ne (t.first ∙ e))

pub gone :
    (fuel : ℕ) (h : Heap) (live : List ℕ) (n b : ℕ) (ts : List Tile)
    → 2 * total ≤ fuel
    → Held h live n ts
    → In b live
    → Released fuel h n b ts
gone fuel h live n b ts fu d i =
    let t = d.tiled in
    let whole = t.whole in
    let long = length-widths h.size (base + n) ts t.heads in
    kfree-release fuel h n b ts t (omega (arith, fu, whole, long)) (d.in_row b i)

-- Two answers of one call.
same_answer {ℓ} : {A : Type ℓ} {o : Option A} {p q : A} → o ≡ some p → o ≡ some q → p ≡ q
same_answer e i = some-injective _ _ (sym e ∙ i)

met-Holds :
    (h h' : Heap) (live live' : List ℕ) (n u a : ℕ) (ts : List Tile) (r : Option (Option ℕ × Heap))
    → Held h live n ts
    → r ≡ some (some a, h')
    → live' ≡ (a - 1) ∷ live
    → Served u h n ts r
    → Holds h' live'
met-Holds h h' live live' n u a ts r d run e (inl (nothing, s)) =
    absurd (none-ne-some _ (ap (λ x. x.0) (same_answer nothing run)))
met-Holds h h' live live' n u a ts r d run e (inr (b, h2, n', ts', got, t, i)) =
    let q = same_answer got run in
    let a_is : b + 1 ≡ a = some-injective _ _ (ap (λ x. x.0) q) in
    let b_is : b ≡ a - 1 = omega (arith, a_is) in
    subst (λ x. Holds x live') (ap (λ x. x.1) q)
      (subst (λ x. Holds h2 x) (ap (λ x. x ∷ live) b_is ∙ sym e)
        (n', ts', Holds-met h h2 live n n' u b ts ts' d t i))

refused-Holds :
    (h h' : Heap) (live live' : List ℕ) (n u : ℕ) (ts : List Tile) (r : Option (Option ℕ × Heap))
    → Held h live n ts
    → r ≡ some (none, h')
    → live' ≡ live
    → Served u h n ts r
    → Holds h' live'
refused-Holds h h' live live' n u ts r d run e (inl (nothing, s)) =
    subst (λ x. Holds x live') (ap (λ x. x.1) (same_answer nothing run))
      (subst (λ x. Holds h x) (sym e) (n, ts, d))
refused-Holds h h' live live' n u ts r d run e (inr (b, h2, n', ts', got, t, i)) =
    absurd (none-ne-some _ (ap (λ x. x.0) (same_answer run got)))

freed-Holds :
    (fuel : ℕ) (h h' : Heap) (live live' : List ℕ) (n b : ℕ) (ts : List Tile)
    → Held h live n ts
    → In b live
    → kfree fuel h (b + 1) ≡ some h'
    → live' ≡ without b live
    → Released fuel h n b ts
    → Holds h' live'
freed-Holds fuel h h' live live' n b ts d i run e (h2, n', ts', got, k, t) =
    subst (λ x. Holds x live') (same_answer got run)
      (subst (λ x. Holds h2 x) (sym e) (n', ts', Holds-freed h h2 live n n' b ts ts' d i k t))

pub Step-Holds :
    (fuel : ℕ) (h h' : Heap) (live live' : List ℕ)
    → 2 * total ≤ fuel
    → Step fuel h live h' live'
    → Holds h live
    → Holds h' live'
Step-Holds fuel h h' live live' fu (met nbytes a ne run e) (n, ts, d) =
    met-Holds h h' live live' n (units nbytes) a ts (kmalloc fuel h nbytes) d run e
      (served fuel h live nbytes n ts fu d ne)
Step-Holds fuel h h' live live' fu (refused nbytes ne run e) (n, ts, d) =
    refused-Holds h h' live live' n (units nbytes) ts (kmalloc fuel h nbytes) d run e
      (served fuel h live nbytes n ts fu d ne)
Step-Holds fuel h h' live live' fu (freed b i run e) (n, ts, d) =
    freed-Holds fuel h h' live live' n b ts d i run e (gone fuel h live n b ts fu d i)
