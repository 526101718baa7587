-- ===== src/Idt.antt =====
-- src/kernel/idt.c: the interrupt descriptor table. The addresses of the handlers, the code
-- segment register and what `lidt` does are outside: the first two are arguments.
pub mod Vectors
mod Copy
pub mod Handlers
mod Tests
use janus.Base.{ℕ, zero, suc, ◌+◌, ◌/◌, ◌%◌, ◌^◌, List, [], ◌∷◌, ◌==◌, if◌then◌else◌}

-- `struct x86_gate`
pub record Gate : Type 0 where
  pub offset_low : ℕ
  pub selector : ℕ
  pub access : ℕ
  pub offset_high : ℕ

-- `IDT`, by vector.
abbrev pub Table : Type 0
Table = ℕ → Gate

pub gate_of : (handler codesegment control_major : ℕ) → Gate
gate_of handler codesegment control_major = record {
  offset_low = handler % 2 ^ 32 % 2 ^ 16;
  selector = codesegment;
  access = control_major % 2 ^ 16;
  offset_high = handler % 2 ^ 32 / 2 ^ 16 % 2 ^ 16;
}

-- `interrupt` is an `unsigned char`.
pub set_vector : Table → (codesegment handler interrupt control_major : ℕ) → Table
unfolding gate_of
set_vector t cs handler interrupt control_major v =
    if v == interrupt % 256 then gate_of handler cs control_major else t v

-- `D_PRESENT + D_INT + D_DPL3`
abbrev pub kernel_gate : ℕ
kernel_gate = 0x8000 + 0x0e00 + 0x6000

-- `for (count = 16; count < 256; count++)`: the rounds left and `count`.
null_vectors : ℕ → Table → (cs int_null count : ℕ) → Table
null_vectors zero t cs int_null count = t
null_vectors (suc k) t cs int_null count =
    null_vectors k (set_vector t cs int_null count kernel_gate) cs int_null (count + 1)

-- The calls behind the loop, in order: `handler n` is the address of `_int`n.
install : List ℕ → Table → (cs : ℕ) → (ℕ → ℕ) → Table
install [] t cs handler = t
install (n ∷ ns) t cs handler = install ns (set_vector t cs (handler n) n kernel_gate) cs handler

abbrev pub installed : List ℕ
installed = 0 ∷ 1 ∷ 2 ∷ 3 ∷ 4 ∷ 5 ∷ 6 ∷ 7 ∷ 8 ∷ 9 ∷ 10 ∷ 12 ∷ 13 ∷ 14 ∷ 15 ∷ 16 ∷ []

pub init_idt : Table → (cs int_null : ℕ) → (ℕ → ℕ) → Table
init_idt t cs int_null handler = install installed (null_vectors 240 t cs int_null 16) cs handler
