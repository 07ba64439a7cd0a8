-- ===== src/Brain/Control.antt =====
-- `ControlLoopStep` of ai_brain.cpp: one tick of the control thread, at the time `now`.
use robot_brain.Base.{ℕ, Bool, true, false, Option, none, some, ◌&&◌, ◌||◌, ltb, if◌then◌else◌}
use robot_brain.Base.Int.{sub_ℕ, ltb_ℤ}
use robot_brain.Base.Vec3.{Vec3, vec3, map_vec3}
use robot_brain.Float.{Float, Convert}
use robot_brain.Ros.{Proprioception, get_latest_proprioception, publish_joint_command}
use robot_brain.ThreadPool.{ThreadPool, enqueue}
use robot_brain.Brain.{
  AiBrain, Machine, Job, PolicyModel, TaskProfile, RobotState, executing, standing, bump,
  with_state, zero_vec,
}
use robot_brain.Brain.Tasks.{get_task_profile, fill_zero}
use robot_brain.Brain.Motion.{ramp_velocity_command}

abbrev pub is_executing : RobotState → Bool
is_executing executing = true
is_executing _ = false

module _ {F D H : Type 0} ⦃f : Float F⦄ where
  -- The software watchdog: the heartbeat is read first, the state only after that.
  unfoldable pub watchdog_due : ℕ → AiBrain F D H → Bool
  watchdog_due now b = ltb_ℤ b.watchdog_timeout_ms (sub_ℕ now b.last_heartbeat_ms)

  unfoldable pub watchdog_clear : Bool → AiBrain F D H → AiBrain F D H
  watchdog_clear due b =
      if due && is_executing b.metrics.current_state
      then record (with_state standing b) { velocity_cmd = zero_vec }
      else b

  unfoldable pub watchdog : ℕ → AiBrain F D H → AiBrain F D H
  unfolding watchdog_due watchdog_clear
  watchdog now b = watchdog_clear (watchdog_due now b) b

  -- The simulation was reset: gravity jumps back from about 0 to about -1.
  unfoldable pub detect_reset : PolicyModel F H → F → AiBrain F D H → AiBrain F D H
  detect_reset policy cur_gravity_z b =
      let c =
        (if f.lt (f.neg (f.lit 3 1)) b.last_gravity_z && f.lt cur_gravity_z (f.neg (f.lit 7 1))
          then record b {
            hidden = policy.reset_hidden_state b.hidden;
            prev_actions = fill_zero b.prev_actions;
            last_joint_targets = b.default_joint_positions;
          }
          else b) in
      record c { last_gravity_z = cur_gravity_z }

  -- The time since the last tick in seconds, or 0.02 where it is not plausible.
  unfoldable pub elapsed_dt : ℕ → AiBrain F D H → F
  elapsed_dt now b =
      let dt =
        (if ltb 0 b.last_control_ms
          then f.div (f.of_int (sub_ℕ now b.last_control_ms)) (f.lit 10_000 1)
          else f.lit 2 2) in
      if f.le dt (f.lit 0 0) || f.lt (f.lit 5 1) dt then f.lit 2 2 else dt

  -- Reset detection, the ramp of the velocity, and the two values read under the lock.
  unfoldable pub prepare : PolicyModel F H → ℕ → Proprioception F → AiBrain F D H → AiBrain F D H
  unfolding detect_reset elapsed_dt ramp_velocity_command
  prepare policy now prop b =
      let b₁ = detect_reset policy prop.projected_gravity.v2 b in
      let dt = elapsed_dt now b₁ in ramp_velocity_command dt (record b₁ { last_control_ms = now })

  unfoldable pub profile_of : RobotState → AiBrain F D H → TaskProfile F
  unfolding get_task_profile
  profile_of standing b = record { velocity_scale = f.lit 10 1; action_scale = f.lit 10 1 }
  profile_of _ b = get_task_profile b.current_task_type

  unfoldable pub velocity_of : RobotState → TaskProfile F → AiBrain F D H → Vec3 F
  velocity_of standing profile b = vec3 (f.lit 5 1) (f.lit 0 0) (f.lit 0 0)
  velocity_of _ profile b = map_vec3 (λ v. f.mul v profile.velocity_scale) b.current_vel_cmd

  unfoldable pub make_job : RobotState → Proprioception F → AiBrain F D H → Job F
  unfolding profile_of velocity_of
  make_job state prop b =
      let profile = profile_of state b in
      record {
        prop = prop;
        scaled_vel_cmd = velocity_of state profile b;
        my_generation = b.task_generation;
        profile = profile;
      }

module _ {F D H : Type 0} ⦃f : Float F⦄ where
  abbrev pub drop_frame : AiBrain F D H → AiBrain F D H
  drop_frame b = record b {
    metrics = record b.metrics { dropped_frames = bump b.metrics.dropped_frames };
  }

  abbrev pub set_inferring : Bool → AiBrain F D H → AiBrain F D H
  set_inferring v b = record b { is_inferring = v }

  -- The result of `enqueue`: a full pool costs the frame.
  unfoldable pub submitted : Machine F D H → Option (ThreadPool (Job F)) → Machine F D H
  submitted m (some pool) = record m { pool = pool }
  submitted m none = record m { brain = drop_frame (set_inferring false m.brain) }

  -- After the compare-and-swap has set `is_inferring_`.
  unfoldable pub infer_frame :
      PolicyModel F H → ℕ → RobotState → Proprioception F → Machine F D H → Machine F D H
  unfolding prepare make_job submitted
  infer_frame policy now state prop m =
      if prop.valid
      then (let b = prepare policy now prop m.brain in
          submitted (record m { brain = b }) (enqueue m.pool (make_job state prop b)))
      else record m { brain = set_inferring false m.brain }

  unfoldable pub try_infer : PolicyModel F H → ℕ → RobotState → Machine F D H → Machine F D H
  unfolding infer_frame
  try_infer policy now state m =
      if m.brain.is_inferring
      then record m { brain = drop_frame m.brain }
      else infer_frame policy now state (get_latest_proprioception m.ros)
          (record m { brain = set_inferring true m.brain })

module _ {F D H : Type 0} ⦃f : Float F⦄ ⦃d : Float D⦄ ⦃c : Convert F D⦄ where
  unfoldable pub step_in_state : RobotState → PolicyModel F H → ℕ → Machine F D H → Machine F D H
  unfolding try_infer
  step_in_state executing policy now m = try_infer policy now executing m
  step_in_state standing policy now m = try_infer policy now standing m
  step_in_state _ policy now m = record m {
    ros = publish_joint_command m.brain.default_joint_positions m.ros;
  }

  unfoldable pub control_loop_step : PolicyModel F H → ℕ → Machine F D H → Machine F D H
  unfolding watchdog step_in_state
  control_loop_step policy now m =
      let b = watchdog now m.brain in
      step_in_state b.metrics.current_state policy now (record m { brain = b })
