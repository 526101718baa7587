-- ===== src/Idt/Handlers.antt =====
-- The handlers of src/kernel/idt.c, and what an exception comes to once `InitIDT` has run.
use janus.Base.{
  ℕ, zero, suc, ◌^◌, ◌≤◌, ◌<◌, ◌≡◌, ◌≢◌, refl, ◌∙◌, ap, Option, none, some, [], ◌∷◌, ◌++◌, leb,
  if◌then◌else◌, arith, Bool-cases, inl, inr, get_elem?, get_elem?-none, length, sym, List,
}
use janus.Idt.{Table, init_idt}
use janus.Idt.Vectors.{target, Words32, init_idt_targets}

-- The messages of `_int0` to `_int16`.
pub data Message : Type 0 where
  divide_error : Message
  debug_exception : Message
  unknown_error_2 : Message
  breakpoint : Message
  overflow : Message
  bounds_check : Message
  invalid_opcode : Message
  coprocessor_not_available : Message
  double_fault : Message
  coprocessor_segment_overrun : Message
  invalid_tss : Message
  segment_not_present : Message
  stack_exception : Message
  general_protection : Message
  page_fault : Message
  unknown_error_15 : Message
  coprocessor_error : Message

-- The message of each handler: `kprintf`, behind which all of them loop for ever.
abbrev pub messages : List Message
messages =
    divide_error ∷ debug_exception ∷ unknown_error_2 ∷ breakpoint ∷ overflow ∷ bounds_check
    ∷ invalid_opcode ∷ coprocessor_not_available ∷ double_fault ∷ coprocessor_segment_overrun
    ∷ invalid_tss ∷ segment_not_present ∷ stack_exception ∷ general_protection ∷ page_fault
    ∷ unknown_error_15 ∷ coprocessor_error ∷ []

-- A processor that runs a handler: `_int`n before its `kprintf` or in its loop, `int_null`, which
-- returns, or code that is none of these.
pub data Running : Type 0 where
  entered : (n : ℕ) → Running
  looping : Running
  returned : Running
  elsewhere : Running

-- One step of a handler, and the message that it prints.
handler_step : Running → List Message × Running
handler_step (entered n) = elim (get_elem? messages n) [
  | none ↦ ([], elsewhere)
  | some m ↦ (m ∷ [], looping)
]
handler_step looping = ([], looping)
handler_step returned = ([], returned)
handler_step elsewhere = ([], elsewhere)

-- What is printed in so many steps.
pub handler_run : (steps : ℕ) → Running → List Message × Running
unfolding handler_step
handler_run zero r = ([], r)
handler_run (suc k) r =
    let (now, r1) = handler_step r in let (later, r2) = handler_run k r1 in (now ++ later, r2)

-- Exception `v`: the processor goes where the gate leads; `code` tells what stands at an address.
pub raise : (code : ℕ → Running) → Table → (v : ℕ) → Running
raise code t v = code (target (t v))

looping_run : (k : ℕ) → handler_run k looping ≡ ([], looping)
unfolding handler_run handler_step
looping_run zero = refl
looping_run (suc k) = rw (looping_run k) refl

null_run : (k : ℕ) → handler_run k returned ≡ ([], returned)
unfolding handler_run handler_step
null_run zero = refl
null_run (suc k) = rw (null_run k) refl

entered_run :
    (k n : ℕ) (m : Message)
    → get_elem? messages n ≡ some m
    → handler_run (suc k) (entered n) ≡ (m ∷ [], looping)
unfolding handler_run handler_step
entered_run k n m e = rw (e, looping_run k) refl

-- What each exception prints, however long it runs.
abbrev pub response : (v : ℕ) → Option Message → List Message × Running
response v none = ([], returned)
response v (some m) = (m ∷ [], looping)

get_elem?-inside {ℓ} :
    {A : Type ℓ} (xs : List A) (i : ℕ) → i < length xs → (x : A) × (get_elem? xs i ≡ some x)
get_elem?-inside [] i lt = absurd (omega (arith, lt))
get_elem?-inside (x ∷ xs) zero lt = (x, refl)
get_elem?-inside (x ∷ xs) (suc i) lt = get_elem?-inside xs i (omega (arith, lt))

-- Once `InitIDT` has run, each exception up to 16 but 11 enters its own handler, which prints its
-- message once and then loops for ever, however long it runs; every vector from 17 on prints
-- nothing and returns. `code` is what stands at the addresses of the handlers.
pub handler_run-init_idt :
    (t : Table) (cs int_null : ℕ) (handler : ℕ → ℕ) (code : ℕ → Running) (k v : ℕ)
    → Words32 handler
    → int_null < 2 ^ 32
    → code int_null ≡ returned
    → ((n : ℕ) → n ≤ 16 → code (handler n) ≡ entered n)
    → v < 256
    → v ≢ 11
    → handler_run (suc k) (raise code (init_idt t cs int_null handler) v)
      ≡ response v (get_elem? messages v)
unfolding raise
handler_run-init_idt t cs int_null handler code k v w wn at_null at_handler lt ne =
    let goes = init_idt_targets t cs int_null handler v w wn lt ne in
    elim (Bool-cases (leb v 16)) [
      | inl own ↦
          let (m, e) = get_elem?-inside messages v (ground (arith, own)) in
          ap (λ x. handler_run (suc k) (code x))
            (goes ∙ ap (λ b. if b then handler v else int_null) own)
          ∙ ap (handler_run (suc k)) (at_handler v (ground (arith, own)))
          ∙ entered_run k v m e
          ∙ ap (response v) (sym e)
      | inr null ↦
          ap (λ x. handler_run (suc k) (code x))
            (goes ∙ ap (λ b. if b then handler v else int_null) null)
          ∙ ap (handler_run (suc k)) at_null
          ∙ null_run (suc k)
          ∙ ap (response v) (sym (get_elem?-none messages v (ground (arith, null))))
    ]
