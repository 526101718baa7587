-- ===== src/Idt/Vectors.antt =====
-- The table that `InitIDT` leaves, vector by vector.
use janus.Base.{
  ℕ, zero, suc, ◌+◌, ◌*◌, ◌^◌, ◌≤◌, ◌<◌, ◌≡◌, ◌≢◌, refl, ◌∙◌, ap, Bool, false, ◌&&◌, ◌||◌, List, [],
  ◌∷◌, arith, ltb, leb, ◌==◌, if◌then◌else◌,
}
use janus.Idt.{
  Gate, Table, gate_of, set_vector, null_vectors, install, installed, init_idt, kernel_gate,
}

-- The handler that a gate leads to.
abbrev pub target : Gate → ℕ
target g = g.offset_low + 2 ^ 16 * g.offset_high

target-gate_of : (h cs c : ℕ) → h < 2 ^ 32 → target (gate_of h cs c) ≡ h
unfolding gate_of
target-gate_of h cs c lt = omega arith

null_vectors_lem :
    (k : ℕ) (t : Table) (cs n c v : ℕ)
    → c + k ≤ 256
    → null_vectors k t cs n c v
      ≡ (if leb c v && ltb v (c + k) then gate_of n cs kernel_gate else t v)
unfolding null_vectors set_vector
null_vectors_lem zero t cs n c v h = ground arith
null_vectors_lem (suc k) t cs n c v h =
    ground
      (arith, null_vectors_lem k (set_vector t cs n c kernel_gate) cs n (c + 1) v (omega arith))

pub member : ℕ → List ℕ → Bool
member v [] = false
member v (n ∷ ns) = (v == n) || member v ns

abbrev Small : List ℕ → Type 0
Small [] = Unit
Small (n ∷ ns) = (n < 256) × Small ns

install_lem :
    (ns : List ℕ) (t : Table) (cs : ℕ) (handler : ℕ → ℕ) (v : ℕ)
    → Small ns
    → install ns t cs handler v ≡ (if member v ns then gate_of (handler v) cs kernel_gate else t v)
unfolding install member set_vector
install_lem [] t cs handler v s = refl
install_lem (n ∷ ns) t cs handler v s =
    ground (arith, install_lem ns (set_vector t cs (handler n) n kernel_gate) cs handler v s.1)

-- The addresses of the handlers are 32-bit words.
abbrev pub Words32 : (ℕ → ℕ) → Type 0
Words32 handler = (n : ℕ) → handler n < 2 ^ 32

init_idt_at :
    (t : Table) (cs int_null : ℕ) (handler : ℕ → ℕ) (v : ℕ)
    → init_idt t cs int_null handler v ≡ (
        if member v installed
        then gate_of (handler v) cs kernel_gate
        else if leb 16 v && ltb v 256
        then gate_of int_null cs kernel_gate
        else t v)
unfolding init_idt
init_idt_at t cs int_null handler v =
    install_lem installed (null_vectors 240 t cs int_null 16) cs handler v (omega arith)
    ∙ ap (λ g. if member v installed then gate_of (handler v) cs kernel_gate else g)
        (null_vectors_lem 240 t cs int_null 16 v (omega arith))

-- Behind `InitIDT` each vector leads to its handler: those up to 16 but 11 to their own, all from
-- 17 on to the null handler.
pub init_idt_targets :
    (t : Table) (cs int_null : ℕ) (handler : ℕ → ℕ) (v : ℕ)
    → Words32 handler
    → int_null < 2 ^ 32
    → v < 256
    → v ≢ 11
    → target (init_idt t cs int_null handler v) ≡ (if leb v 16 then handler v else int_null)
unfolding member
init_idt_targets t cs int_null handler v hs hn hv ne = ground (
  arith,
  init_idt_at t cs int_null handler v,
  target-gate_of (handler v) cs kernel_gate (hs v),
  target-gate_of int_null cs kernel_gate hn,
)

-- `InitIDT` never sets vector 11, "segment not present": its gate stays as it was, whatever the
-- address of `_int11`.
init_idt_skips :
    (t : Table) (cs int_null : ℕ) (handler : ℕ → ℕ) → init_idt t cs int_null handler 11 ≡ t 11
unfolding member
init_idt_skips t cs int_null handler = init_idt_at t cs int_null handler 11
