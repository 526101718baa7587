-- ===== src/Str/Tests.antt =====
-- The functions of string.c on concrete memories.
use janus.Base.{ℕ, ◌+◌, ◌<◌, ◌≡◌, ◌⊎◌, inr, refl, some, List, [], ◌∷◌, arith}
use janus.Base.Int.{pos, negsuc}
use janus.Memory.{Mem, store, poke, IsStr}
use janus.Str.{char_sub, strlen, strcmp, strcpy, power, atoi, hex_val, strchr}
use janus.Str.Copy.{strcpy_lem}

abbrev blank : Mem
blank = λ _. 0

-- "cab" at 8, "abc" at 16, "120" at 32, "0x1F" at 40.
abbrev mem : Mem
unfolding poke store
mem =
    poke
      (poke (poke (poke blank 8 (99 ∷ 97 ∷ 98 ∷ [])) 16 (97 ∷ 98 ∷ 99 ∷ [])) 32 (49 ∷ 50 ∷ 48 ∷ []))
      40 (48 ∷ 120 ∷ 49 ∷ 70 ∷ [])

abbrev cab : List ℕ
cab = 99 ∷ 97 ∷ 98 ∷ []

abbrev abc : List ℕ
abc = 97 ∷ 98 ∷ 99 ∷ []

cab_at : IsStr mem 8 cab
unfolding mem
cab_at = omega arith

abc_at : IsStr mem 16 abc
unfolding mem
abc_at = omega arith

runs :
    (strlen 9 mem 8 ≡ some 3)
    × (strcmp 9 mem 8 16 ≡ some (pos 2))
    × (strcmp 9 mem 16 8 ≡ some (negsuc 1))
    × (atoi 9 mem 7 32 ≡ some 120)
    × (atoi 9 mem 7 40 ≡ some 31)
    × (strchr 9 mem 8 97 ≡ some (some 9))
unfolding mem strlen strcmp char_sub atoi power hex_val strchr
runs = (refl, refl, refl, refl, refl, refl)

mem_bytes : (x : ℕ) → mem x < 256
unfolding mem
mem_bytes x = ground arith

strcpy_lem_example :
    (m' : Mem) × (strcpy 9 mem 24 8 ≡ some m')
    × IsStr m' 24 cab
    × ((a : ℕ) → (a < 24) ⊎ (24 + 3 < a) → m' a ≡ mem a)
strcpy_lem_example = strcpy_lem cab 9 mem 24 8 cab_at (omega arith) (inr (omega arith))
