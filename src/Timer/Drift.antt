-- ===== src/Timer/Drift.antt =====
-- The schedule of the control loop does not drift.
use robot_brain.Base.{ℕ, zero, suc, ◌+◌, ◌-◌, ◌*◌, ◌≤◌, ◌<◌, ◌≡◌, List, [], ◌∷◌, arith, length}
use robot_brain.Float.{Float}
use robot_brain.Jitter.{JitterStats}
use robot_brain.Timer.{Timespec, second_ns, total_ns, normalize, advance, rounds, period_of}

normalize_lem :
    (fuel : ℕ) (t : Timespec)
    → t.tv_nsec ≤ fuel
    → let r = normalize fuel t in (total_ns r ≡ total_ns t) × (r.tv_nsec < second_ns)
unfolding normalize
normalize_lem zero t h = omega arith
normalize_lem (suc fuel) t h =
    ground (
      arith,
      normalize_lem fuel (record { tv_sec = t.tv_sec + 1; tv_nsec = t.tv_nsec - second_ns }),
    )

-- The next wake-up is exactly one period after the last one, and its nanoseconds are below a
-- second: the loop over the seconds ends.
pub advance-total_ns :
    (period_ns : ℕ) (t : Timespec)
    → let r = advance period_ns t in (total_ns r ≡ total_ns t + period_ns) × (r.tv_nsec < second_ns)
unfolding advance
advance-total_ns period_ns t =
    let r =
      normalize_lem (t.tv_nsec + period_ns)
        (record { tv_sec = t.tv_sec; tv_nsec = t.tv_nsec + period_ns }) (omega arith) in
    omega arith

module _ {D : Type 0} ⦃d : Float D⦄ where
  -- However late the thread wakes, after n rounds the next wake-up is planned n periods after the
  -- first: delays do not accumulate.
  pub rounds_no_drift :
      (rate_ms : ℕ) (wakes : List Timespec) (s : JitterStats D) (first : Timespec)
      → total_ns (rounds (period_of rate_ms) wakes (s, first)).1
        ≡ total_ns first + length wakes * period_of rate_ms
  unfolding rounds
  rounds_no_drift rate_ms [] s first = omega arith
  rounds_no_drift rate_ms (now ∷ earlier) s first = omega (
    arith,
    rounds_no_drift rate_ms earlier s first,
    advance-total_ns (period_of rate_ms) (rounds (period_of rate_ms) earlier (s, first)).1,
  )
