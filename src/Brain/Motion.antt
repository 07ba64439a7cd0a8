-- ===== src/Brain/Motion.antt =====
-- `RampVelocityCommand`, `DetectFall` and `ApplyRateLimit` of ai_brain.cpp.
use robot_brain.Base.{◌+◌, Bool, true, false, List, get_or, for_below, if◌then◌else◌}
use robot_brain.Base.Int.{pos, leb_ℤ}
use robot_brain.Base.Vec3.{zip_vec3}
use robot_brain.Float.{Float}
use robot_brain.Float.Order.{approach}
use robot_brain.Ros.{Proprioception}
use robot_brain.Brain.{AiBrain, BrainConfig}

module _ {F : Type 0} ⦃f : Float F⦄ where
  -- `max_joint_velocity_ * control_dt`, with the fixed period of 0.02 s.
  abbrev pub max_step : BrainConfig F → F
  max_step cfg = f.mul cfg.max_joint_velocity (f.lit 2 2)

module _ {F D H : Type 0} ⦃f : Float F⦄ where
  unfoldable pub ramp_velocity_command : F → AiBrain F D H → AiBrain F D H
  unfolding approach
  ramp_velocity_command dt b =
      let max_delta = f.mul b.max_vel_ramp dt in
      record b {
        current_vel_cmd =
            zip_vec3 (λ current target. approach current target max_delta) b.current_vel_cmd
              b.velocity_cmd;
      }

  -- `false` is no fall; the count starts again when one is reported.
  unfoldable pub detect_fall : Proprioception F → AiBrain F D H → Bool × AiBrain F D H
  detect_fall prop b =
      if f.lt b.fall_gravity_threshold prop.projected_gravity.v2
      then (if leb_ℤ b.fall_debounce_frames (pos (b.fall_debounce_count + 1))
          then (true, record b { fall_debounce_count = 0 })
          else (false, record b { fall_debounce_count = b.fall_debounce_count + 1 }))
      else (false, record b { fall_debounce_count = 0 })

  unfoldable pub apply_rate_limit : AiBrain F D H → List F → List F
  unfolding approach
  apply_rate_limit b joint_targets =
      for_below b.num_joints
        (λ i target.
          approach (get_or b.last_joint_targets i (f.lit 0 0)) target (max_step b.config))
        joint_targets
