-- ===== src/Delay.antt =====
-- src/kernel/delay.c: calibrating the busy loop against the timer. Whether a timer tick passes while
-- `__delay(n)` runs is the machine's answer: the argument `over`. The waits for the start of a tick
-- change nothing but `ticks`, and are not modelled.
pub mod Calibrated
mod Tests
use Prim.Native.Nat.{bit_and, bit_or}
use janus.Base.{
  ℕ, zero, suc, ◌+◌, ◌-◌, ◌*◌, ◌/◌, ◌%◌, ◌^◌, Bool, true, false, Option, none, some, List, [], ◌∷◌,
  ◌++◌, ◌==◌, if◌then◌else◌, ◌>>=◌,
}
use janus.Io.{Event, print}
use janus.Pic.{Pic, enable_irq, disable_irq, inverse}
use janus.Pit.{init_pit}
use janus.Idt.{Table, set_vector}

-- `delay(ms)`: how many rounds `__delay` counts.
pub delay : (delay_count milliseconds : ℕ) → ℕ
delay delay_count milliseconds = milliseconds * delay_count % 2 ^ 32

module _ (over : ℕ → Bool) where
  -- Stage 1: `do { delay_count <<= 1; … } while (prevtick == ticks)`, on fuel.
  pub coarse : ℕ → (delay_count : ℕ) → Option ℕ
  coarse zero d = none
  coarse (suc fuel) d =
      let next = d * 2 % 2 ^ 32 in
      let rest = coarse fuel next in if over next then some next else rest

  -- Stage 2, the rounds left: `delay_count` and `calib_bit`.
  pub fine : ℕ → (delay_count calib_bit : ℕ) → ℕ
  fine zero d bit = d
  fine (suc rounds) d bit =
      let half = bit / 2 in
      let tried = bit_or d half in
      let rest = fine rounds (if over tried then bit_and tried (inverse half) else tried) half in
      if half == 0 then d else rest

  -- Both stages, and `delay_count /= MILLISEC`. PRECISION is 8.
  calibrated : Option ℕ → Option ℕ
  calibrated none = none
  calibrated (some d) = let base = d / 2 in some (fine 8 base base / 10)

  pub calibrate : ℕ → (delay_count : ℕ) → Option ℕ
  unfolding calibrated
  calibrate fuel d = calibrated (coarse fuel d)

-- The devices that `calibrateDelayLoop` sets up and stops around the stages.
pub record Machine : Type 0 where
  pub delay_count : ℕ
  pub pic : Pic
  pub idt : Table

-- "calibration"
abbrev pub calibration_text : List ℕ
calibration_text = 99 ∷ 97 ∷ 108 ∷ 105 ∷ 98 ∷ 114 ∷ 97 ∷ 116 ∷ 105 ∷ 111 ∷ 110 ∷ []

-- `D_INT + D_PRESENT + D_DPL3`, at vector M_VEC = 0x68; the timer runs at 100 Hz.
pub calibrate_delay_loop : (over : ℕ → Bool) → ℕ → (cs isr : ℕ) → Machine → Option (ℕ × Machine)
calibrate_delay_loop over fuel cs isr m = do
  let p0 = record m.pic { trace = init_pit m.pic.trace 100 0 }
  let t = set_vector m.idt cs isr 0x68 (0x0e00 + 0x8000 + 0x6000)
  let p1 = enable_irq p0 0
  d ← calibrate over fuel m.delay_count
  let p2 = disable_irq p1 0
  let p3 = record p2 { trace = p2.trace ++ print calibration_text ∷ [] }
  some (d, record { delay_count = d; pic = p3; idt = t })
