-- ===== src/Memory.antt =====
-- The flat memory that C pointers address: a byte at every address. Addresses are natural
-- numbers and do not wrap, so a buffer is taken to end below the top of the address space.
pub mod Laws
pub mod Read
use janus.Base.{ℕ, suc, ◌+◌, ◌%◌, ◌≡◌, ◌≢◌, Bool, List, [], ◌∷◌, ◌==◌, if◌then◌else◌}

abbrev pub Mem : Type 0
Mem = ℕ → ℕ

-- `*p = v` through an `unsigned char *`.
unfoldable pub store : Mem → ℕ → ℕ → Mem
store m p v a = if a == p then v % 256 else m a

-- The bytes `xs` written from `p` on.
unfoldable pub poke : Mem → ℕ → List ℕ → Mem
poke m p [] = m
poke m p (x ∷ xs) = poke (store m p x) (p + 1) xs

-- A C string: from `p` on stand the bytes `xs`, none of them NUL, and then a NUL.
abbrev pub IsStr : Mem → ℕ → List ℕ → Type 0
IsStr m p [] = m p ≡ 0
IsStr m p (x ∷ xs) = (m p ≡ x) × (x ≢ 0) × (x % 256 ≡ x) × IsStr m (p + 1) xs
