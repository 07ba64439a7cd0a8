-- ===== src/Timer.antt =====
-- src/RobotBrain/src/core/ros_node.cpp, the loop of `RegisterRealtimeTick`: absolute wake-up times.
-- A time is a `timespec`, whose seconds and nanoseconds do not overflow within the life of the
-- process; the period is positive.
pub mod Drift
pub mod Thread
pub mod Stop
use robot_brain.Base.{Bool, ℕ, zero, suc, ◌+◌, ◌-◌, ◌*◌, leb, ltb, if◌then◌else◌, List, [], ◌∷◌}
use robot_brain.Base.Int.{ℤ, sub_ℕ}
use robot_brain.Float.{Float}
use robot_brain.Jitter.{JitterStats, update_jitter, nought}

abbrev pub second_ns : ℕ
second_ns = 1_000_000_000

pub record Timespec : Type 0 where
  pub tv_sec : ℕ
  pub tv_nsec : ℕ

abbrev pub total_ns : Timespec → ℕ
total_ns t = t.tv_sec * second_ns + t.tv_nsec

-- `while (next.tv_nsec >= 1000000000L) { next.tv_nsec -= 1000000000L; next.tv_sec++; }`
unfoldable pub normalize : ℕ → Timespec → Timespec
normalize zero t = t
normalize (suc fuel) t =
    let rest = normalize fuel (record { tv_sec = t.tv_sec + 1; tv_nsec = t.tv_nsec - second_ns }) in
    if leb second_ns t.tv_nsec then rest else t

-- Each round takes off a second, so the nanoseconds are fuel enough.
unfoldable pub advance : ℕ → Timespec → Timespec
advance period_ns t =
    let nsec = t.tv_nsec + period_ns in
    normalize nsec (record { tv_sec = t.tv_sec; tv_nsec = nsec })

-- `period_ns`, from the rate in milliseconds.
abbrev pub period_of : ℕ → ℕ
period_of rate_ms = rate_ms * 1_000_000

module _ {D : Type 0} ⦃d : Float D⦄ where
  -- The delay of a wake-up in milliseconds; early ones count as 0.
  unfoldable pub jitter_ms : Timespec → Timespec → D
  jitter_ms now next =
      let j = d.div (d.of_int (sub_ℕ (total_ns now) (total_ns next))) (d.lit 1_000_000 0) in
      if d.lt j nought then nought else j

  -- The outcome of `pthread_setschedparam` is kept with the statistics.
  unfoldable pub set_scheduling : Bool → JitterStats D → JitterStats D
  set_scheduling fifo_ok s = record s { sched_fifo_ok = fifo_ok }

  -- What one round of the loop does to the statistics and to `next`, the tick aside; `now` is what
  -- `clock_gettime` says after the sleep.
  unfoldable pub tick_round : ℕ → Timespec → JitterStats D × Timespec → JitterStats D × Timespec
  unfolding jitter_ms advance
  tick_round period_ns now (s, next) =
      (update_jitter (jitter_ms now next) s, advance period_ns next)

  -- The rounds for the wake-up times of a run, the latest first.
  unfoldable pub rounds : ℕ → List Timespec → JitterStats D × Timespec → JitterStats D × Timespec
  unfolding tick_round
  rounds period_ns [] st = st
  rounds period_ns (now ∷ earlier) st = tick_round period_ns now (rounds period_ns earlier st)
