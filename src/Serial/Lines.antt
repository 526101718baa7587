-- ===== src/Serial/Lines.antt =====
-- `receive` of drivers/serial.c prints one line.
use janus.Base.{
  ℕ, ◌≡◌, ◌≢◌, refl, true, false, some, List, [], ◌∷◌, ◌++◌, ◌==◌, if◌then◌else◌, arith, Bool-cases,
  inl, inr,
}
use janus.Io.{print, Trace}
use janus.Serial.{init_serial, Round, is_ready, receive_loop, receive}

-- The bytes that the rounds bring.
abbrev pub bytes : List Round → List ℕ
bytes [] = []
bytes (r ∷ rs) = let l = bytes rs in if is_ready r then r.arrived ∷ l else l

abbrev pub printed : List ℕ → Trace
printed [] = []
printed (c ∷ cs) = print (c ∷ []) ∷ printed cs

-- No byte is a line feed.
abbrev pub Unbroken : List ℕ → Type 0
Unbroken [] = Unit
Unbroken (c ∷ cs) = (c ≢ 10) × Unbroken cs

receive_loop_lem :
    (rs more : List Round) (r : Round) (ch : ℕ)
    → ch ≢ 10
    → Unbroken (bytes rs)
    → is_ready r ≡ true
    → r.arrived ≡ 10
    → receive_loop ch (rs ++ r ∷ more) ≡ some (printed (bytes rs ++ 10 ∷ []))
unfolding receive_loop
receive_loop_lem [] more r ch n u e d =
    let last : (r.arrived == 10) ≡ true = ground arith in rw (e, last, d) refl
receive_loop_lem (q ∷ rs) more r ch n u e d = elim (Bool-cases (is_ready q)) [
  | inl y ↦
      let (n', u') = rw y at u in
      let on : (q.arrived == 10) ≡ false = ground arith in
      rw (y, on, receive_loop_lem rs more r q.arrived n' u' e d) refl
  | inr y ↦
      let on : (ch == 10) ≡ false = ground arith in
      rw (y, on, receive_loop_lem rs more r ch n (rw y at u) e d) refl
]

-- `receive` prints just the bytes that the port brings, up to the first line feed and with it, and
-- then returns, where the variable it has not set yet is no line feed.
receive-line :
    (junk : ℕ) (rs more : List Round) (r : Round)
    → junk ≢ 10
    → Unbroken (bytes rs)
    → is_ready r ≡ true
    → r.arrived ≡ 10
    → receive junk (rs ++ r ∷ more) ≡ some (init_serial ++ printed (bytes rs ++ 10 ∷ []))
unfolding receive
receive-line junk rs more r n u e d = simp (receive_loop_lem rs more r junk n u e d) refl
