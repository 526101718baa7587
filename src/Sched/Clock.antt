-- ===== src/Sched/Clock.antt =====
-- `clock` of sched.c: the counters stay in step.
use janus.Base.{◌+◌, ◌*◌, ◌%◌, ◌^◌, ◌<◌, ◌≡◌, arith}
use janus.Sched.{Ticks, clock}

-- `ticks` counts the hundredths of the running second, and the total is the whole time, modulo
-- 2^32.
pub record InStep (c : Ticks) : Type 0 where
  pub below : c.ticks < 100
  pub total : c.total_ticks ≡ (100 * c.sys_time + c.ticks) % 2 ^ 32

-- Every tick keeps `ticks` below 100 and the total equal to 100 per second and the rest, modulo
-- 2^32, also where `sys_time` or the total wraps.
clock-InStep : (c : Ticks) → InStep c → InStep (clock c)
unfolding clock
clock-InStep c v = ground arith
