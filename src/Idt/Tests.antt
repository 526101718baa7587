-- ===== src/Idt/Tests.antt =====
-- idt.c on a concrete table.
use janus.Base.{
  ℕ, ◌+◌, ◌*◌, ◌%◌, ◌^◌, ◌≡◌, arith, leb, refl, ◌≤◌, true, false, ◌-◌, ◌/◌, ◌==◌, [], ◌∷◌,
  if◌then◌else◌,
}
use janus.Idt.{Table, init_idt}
use janus.Idt.Handlers.{
  Running, entered, looping, returned, elsewhere, page_fault, raise, handler_run,
  handler_run-init_idt,
}

abbrev empty : Table
empty = λ _. record { offset_low = 0; selector = 0; access = 0; offset_high = 0 }

abbrev address : ℕ → ℕ
address n = (0x10000 + 16 * n) % 2 ^ 32

-- The handlers at those addresses, and `int_null` at 0x90000.
abbrev code : ℕ → Running
code a =
    if a == 0x90000
    then returned
    else if leb 0x10000 a
    then entered ((a - 0x10000) / 16)
    else elsewhere

code_at : (n : ℕ) → n ≤ 16 → code (address n) ≡ entered n
code_at n le =
    let e : address n ≡ 0x10000 + 16 * n = omega (arith, le) in
    let other : (address n == 0x90000) ≡ false = ground (arith, e) in
    let own : leb 0x10000 (address n) ≡ true = ground (arith, e) in
    let i : (address n - 0x10000) / 16 ≡ n = omega (arith, e) in rw (other, own, i) refl

-- A page fault, for five steps.
handler_run-init_idt_example :
    handler_run 5 (raise code (init_idt empty 8 0x90000 address) 14) ≡ (page_fault ∷ [], looping)
handler_run-init_idt_example =
    handler_run-init_idt empty 8 0x90000 address code 4 14 (λ n. omega arith) (omega arith) refl
      code_at (omega arith) (λ e. omega (arith, e))
