-- ===== src/Disk/Primary.antt =====
-- The primary partitions, and the names of the types.
use janus.Base.{
  ℕ, zero, suc, ◌+◌, ◌≡◌, refl, ap, List, [], ◌∷◌, ◌++◌, ◌==◌, if◌then◌else◌, length, map,
  Bool-cases, inl, inr,
}
use janus.Disk.{Entry, PartProps, Scan, part_props, save_part_props, traverse_primary_partitions}

-- The nodes of the entries, in their order, numbered from `n` on.
unfoldable pub numbered : (n : ℕ) → List (Entry × ℕ) → List PartProps
numbered n [] = []
numbered n ((pe, lba) ∷ es) = part_props n pe lba ∷ numbered (n + 1) es

-- The numbers from `n` on, `count` of them.
abbrev pub numbers : (n count : ℕ) → List ℕ
numbers n zero = []
numbers n (suc count) = n ∷ numbers (n + 1) count

pub map-numbered :
    (n : ℕ) (es : List (Entry × ℕ)) → map (λ p. p.name) (numbered n es) ≡ numbers n (length es)
unfolding numbered part_props
map-numbered n [] = refl
map-numbered n ((pe, lba) ∷ es) = ap (λ l. n ∷ l) (map-numbered (n + 1) es)

pub append-one {ℓ} :
    {A : Type ℓ} (xs : List A) (a : A) (ys : List A) → (xs ++ a ∷ []) ++ ys ≡ xs ++ a ∷ ys
append-one [] a ys = refl
append-one (x ∷ xs) a ys = ap (λ l. x ∷ l) (append-one xs a ys)

-- What `save_part_props` does, on the list.
pub save_part_props_lem :
    (s : Scan) (pe : Entry) (lba : ℕ)
    → ((save_part_props s pe lba).partitions ≡ s.partitions ++ numbered s.part_in ((pe, lba) ∷ []))
      × ((save_part_props s pe lba).part_in ≡ s.part_in + 1)
unfolding save_part_props numbered
save_part_props_lem s pe lba = (refl, refl)

append-four {ℓ} :
    {A : Type ℓ} (xs : List A) (a b c d : A)
    → (((xs ++ a ∷ []) ++ b ∷ []) ++ c ∷ []) ++ d ∷ [] ≡ xs ++ a ∷ b ∷ c ∷ d ∷ []
append-four [] a b c d = refl
append-four (x ∷ xs) a b c d = ap (λ l. x ∷ l) (append-four xs a b c d)

-- Four primary partitions are added behind those there are, in the order of the table, with the
-- next four numbers and their start from the table; without the signature none is.
traverse_primary_partitions_lem :
    (s : Scan)
    → let b = s.bslist in
      (traverse_primary_partitions s).partitions ≡ (
        if b.signature == 0xaa55
        then s.partitions
          ++ numbered s.part_in ((b.part0, 0) ∷ (b.part1, 0) ∷ (b.part2, 0) ∷ (b.part3, 0) ∷ [])
        else s.partitions)
unfolding traverse_primary_partitions save_part_props numbered
traverse_primary_partitions_lem s = elim (Bool-cases (s.bslist.signature == 0xaa55)) [
  | inl good ↦ rw good (append-four s.partitions _ _ _ _)
  | inr bad ↦ rw bad
]
