-- ===== src/Delay/Tests.antt =====
-- delay.c on a machine that ticks from a thousand rounds on.
use janus.Base.{ℕ, suc, ◌+◌, ◌-◌, ◌/◌, ◌^◌, ◌≤◌, ◌<◌, ◌≡◌, refl, Bool, some, leb, arith}
use janus.Delay.{calibrate, coarse, fine}
use janus.Delay.Calibrated.{calibrate_lem}

abbrev over : ℕ → Bool
over n = leb 1000 n

-- The count found is 998, and the result is for one millisecond.
run : calibrate over 40 1 ≡ some 99
unfolding calibrate coarse fine
run = refl

calibrate_lem_example :
    (c : ℕ) × (n : ℕ) × (calibrate over 40 1 ≡ some (c / 10))
    × (c < 1000)
    × (1000 ≤ c + 2 ^ (n - 8))
    × (2 ^ n < 1000)
    × (1000 ≤ 2 ^ suc n)
calibrate_lem_example =
    calibrate_lem over 1000 40 (λ n. refl) (omega arith) (omega arith) (omega arith)
