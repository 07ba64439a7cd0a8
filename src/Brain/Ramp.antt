-- ===== src/Brain/Ramp.antt =====
-- The velocity command: its ramp, the time step it goes by, and the watchdog that clears it.
use robot_brain.Base.{ℕ, ◌<◌, ◌^◌, ◌||◌, if_cases, arith, if◌then◌else◌, ltb}
use robot_brain.Base.Int.{sub_ℕ}
use robot_brain.Base.Vec3.{Vec3}
use robot_brain.Float.{Float, IsIeee, ◌≼◌, Num, Finite}
use robot_brain.Float.Order.{approach_within}
use robot_brain.Brain.{AiBrain}
use robot_brain.Brain.Motion.{ramp_velocity_command}
use robot_brain.Brain.Control.{elapsed_dt}

module _ {F : Type 0} ⦃f : Float F⦄ where
  abbrev pub Between : F → F → Vec3 F → Type 0
  Between lo hi v =
      ((lo ≼ v.v0) × (v.v0 ≼ hi)) × ((lo ≼ v.v1) × (v.v1 ≼ hi)) × ((lo ≼ v.v2) × (v.v2 ≼ hi))

  module _ (laws : IsIeee F) where
    open laws use {
      lit_mono, lit_finite, lit_pos, div_num, of_int_finite, mul_half, le_total, lt-eq-not-le,
    }

    -- Values outside (0, 0.5] are replaced by 0.02.
    limit_dt :
        (x : F)
        → Num x
        → let dt = if f.le x (f.lit 0 0) || f.lt (f.lit 5 1) x then f.lit 2 2 else x in
          (f.lit 0 0 ≼ dt) × (dt ≼ f.lit 5 1)
    limit_dt x n =
        let z = laws.zero_finite in
        let h = lit_finite 5 1 (omega arith) in
        let low : f.lit 0 0 ≼ f.lit 2 2 = lit_mono 0 0 2 2 (omega arith) in
        let high : f.lit 2 2 ≼ f.lit 5 1 = lit_mono 2 2 5 1 (omega arith) in
        ground (
          arith,
          le_total x (f.lit 0 0) n z.0,
          le_total x (f.lit 5 1) n h.0,
          lt-eq-not-le (f.lit 5 1) x h.0 n,
        )

    raw-Num :
        (now last : ℕ)
        → now < 2 ^ 63
        → last < 2 ^ 63
        → Num (if ltb 0 last then f.div (f.of_int (sub_ℕ now last)) (f.lit 10_000 1) else f.lit 2 2)
    raw-Num now last p q =
        if_cases {A = F} (λ x. Num x) (ltb 0 last) _ _
          (λ _.
            div_num _ _ (of_int_finite (sub_ℕ now last) (ground arith) (ground arith))
              (lit_finite 10_000 1 (omega arith)) (lit_pos 10_000 1 (omega arith) (omega arith)))
          (λ _. (lit_finite 2 2 (omega arith)).0)

    module _ {D H : Type 0} where
      -- The time step is at least 0 and at most half a second, however far apart two ticks are.
      pub elapsed_dt_bounds :
          (now : ℕ) (b : AiBrain F D H)
          → now < 2 ^ 63
          → b.last_control_ms < 2 ^ 63
          → (f.lit 0 0 ≼ elapsed_dt now b) × (elapsed_dt now b ≼ f.lit 5 1)
      unfolding elapsed_dt
      elapsed_dt_bounds now b p q = limit_dt _ (raw-Num now b.last_control_ms p q)

      -- In IEEE 754 arithmetic, with times below 2^63 and a finite ramp rate that is at least 0,
      -- the ramp over the time since the last tick keeps the velocity command within any range
      -- that holds both the command in force and the one asked for: it never overshoots.
      pub ramp-Between :
          (now : ℕ) (b : AiBrain F D H) (lo hi : F)
          → now < 2 ^ 63
          → b.last_control_ms < 2 ^ 63
          → Finite b.max_vel_ramp
          → f.lit 0 0 ≼ b.max_vel_ramp
          → Between lo hi b.current_vel_cmd
          → Between lo hi b.velocity_cmd
          → Between lo hi (ramp_velocity_command (elapsed_dt now b) b).current_vel_cmd
      unfolding ramp_velocity_command
      ramp-Between now b lo hi p q rf rp (x, y, z) (u, v, w) =
          let (zero_le, half) = elapsed_dt_bounds now b p q in
          let (finite, nonneg) = mul_half b.max_vel_ramp (elapsed_dt now b) rf rp zero_le half in
          (
            approach_within laws _ _ _ lo hi finite nonneg x u,
            approach_within laws _ _ _ lo hi finite nonneg y v,
            approach_within laws _ _ _ lo hi finite nonneg z w,
          )
