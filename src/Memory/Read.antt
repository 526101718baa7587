-- ===== src/Memory/Read.antt =====
-- Structures read out of memory: little-endian numbers and character arrays.
use janus.Base.{ℕ, zero, suc, ◌+◌, ◌*◌, List, [], ◌∷◌, ◌==◌, if◌then◌else◌}
use janus.Memory.{Mem}

-- The little-endian number of `n` bytes at `p`.
unfoldable pub le : ℕ → Mem → ℕ → ℕ
le zero m p = 0
le (suc n) m p = m p + 256 * le n m (p + 1)

-- The string in an array of `n` characters at `p`: the bytes up to the first NUL, or all.
unfoldable pub chars : ℕ → Mem → ℕ → List ℕ
chars zero m p = []
chars (suc n) m p = let rest = m p ∷ chars n m (p + 1) in if m p == 0 then [] else rest
