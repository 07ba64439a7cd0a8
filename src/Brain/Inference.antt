-- ===== src/Brain/Inference.antt =====
-- The task that `ControlLoopStep` gives to the inference pool, cut where another thread can come in
-- between: the computation, the comparison of generations, the commit, and the release of the flag.
use robot_brain.Base.{
  ℕ, false, ◌||◌, Option, none, some, List, ◌==◌, if◌then◌else◌, get_or, replicate, for_below,
}
use robot_brain.Base.Int.{pos}
use robot_brain.Float.{Float, Convert}
use robot_brain.Float.Order.{clamp}
use robot_brain.Ros.{RosNode, publish_joint_command}
use robot_brain.Brain.{AiBrain, BrainConfig, Job, PolicyModel, bump, feed_dog}
use robot_brain.Brain.Motion.{apply_rate_limit}
use robot_brain.Brain.Observation.{ObsInput, build_observation}

-- Where the task stands, with its local variables.
pub data Stage (F : Type 0) : Type 0 where
  -- The task has not begun.
  begun : Stage F
  -- `joint_targets` and `actions` are computed.
  computed : List F → List F → Stage F
  -- The generation was found unchanged.
  admitted : List F → List F → Stage F
  -- The `try` block is left.
  over : Stage F
  -- `is_inferring_` is false again.
  released : Stage F

module _ {F D : Type 0} ⦃f : Float F⦄ ⦃d : Float D⦄ ⦃c : Convert F D⦄ where
  -- `2.0f * M_PI * phase`, a double.
  unfoldable pub gait_angle : F → D
  gait_angle phase =
      d.mul (d.mul (c.widen (f.lit 20 1)) (d.lit 314_159_265_358_979_323_846 20)) (c.widen phase)

module _ {F D H : Type 0} ⦃f : Float F⦄ ⦃d : Float D⦄ ⦃c : Convert F D⦄ where
  unfoldable pub gait_phase : AiBrain F D H → F
  gait_phase b =
      let elapsed = f.mul (f.of_int (pos b.metrics.total_frames)) b.control_dt in
      f.div (f.fmod elapsed b.gait_phase_period) b.gait_phase_period

  unfoldable pub obs_input : Job F → AiBrain F D H → ObsInput F
  unfolding gait_phase gait_angle
  obs_input job b =
      let phase = gait_phase b in
      record {
        prop = job.prop;
        vel_cmd = job.scaled_vel_cmd;
        default_dof = b.default_joint_positions;
        prev_actions = b.prev_actions;
        num_joints = b.num_joints;
        ang_vel_scale = b.ang_vel_scale;
        dof_pos_scale = b.dof_pos_scale;
        dof_vel_scale = b.dof_vel_scale;
        cmd_scale = b.cmd_scale;
        sin_phase = c.narrow (d.sin (gait_angle phase));
        cos_phase = c.narrow (d.cos (gait_angle phase));
      }

module _ {F : Type 0} ⦃f : Float F⦄ where
  -- A NaN or infinite offset is dropped.
  unfoldable pub sanitize : F → F
  sanitize scaled = if f.is_nan scaled || f.is_inf scaled then f.lit 0 0 else scaled

  -- The bounds of joint `i`.
  abbrev pub low : BrainConfig F → ℕ → F
  low cfg i = f.sub (get_or cfg.default_joint_positions i (f.lit 0 0)) cfg.joint_position_limit

  abbrev pub high : BrainConfig F → ℕ → F
  high cfg i = f.add (get_or cfg.default_joint_positions i (f.lit 0 0)) cfg.joint_position_limit

module _ {F D H : Type 0} ⦃f : Float F⦄ where
  -- `default + action * action_scale * profile.action_scale`
  unfoldable pub raw_targets : Job F → List F → AiBrain F D H → List F
  unfolding sanitize
  raw_targets job actions b =
      for_below b.num_joints
        (λ i old. f.add (get_or b.default_joint_positions i (f.lit 0 0)) (
          sanitize (
            f.mul (f.mul (get_or actions i (f.lit 0 0)) b.config.action_scale)
              job.profile.action_scale)))
        (replicate b.num_joints (f.lit 0 0))

  unfoldable pub limit_targets : AiBrain F D H → List F → List F
  unfolding clamp
  limit_targets b =
      for_below b.num_joints (λ i target. clamp target (low b.config i) (high b.config i))

  -- The two loops over the joints.
  unfoldable pub joint_targets_of : Job F → List F → AiBrain F D H → List F
  unfolding raw_targets limit_targets
  joint_targets_of job actions b = limit_targets b (raw_targets job actions b)

  -- After `Forward`: an exception goes to the `catch`, which takes those that derive from
  -- `std::exception`; `none` is one of these.
  unfoldable pub targets_stage : Job F → Option (List F) → AiBrain F D H → Stage F
  unfolding joint_targets_of
  targets_stage job none b = over
  targets_stage job (some actions) b = computed (joint_targets_of job actions b) actions

module _ {F D H : Type 0} ⦃f : Float F⦄ ⦃d : Float D⦄ ⦃c : Convert F D⦄ where
  -- Up to the clamp; `buffer` is what the acquired buffer holds.
  unfoldable pub compute :
      PolicyModel F H → Job F → List F → AiBrain F D H → AiBrain F D H × Stage F
  unfolding obs_input targets_stage
  compute policy job buffer b =
      let (hidden, actions) =
        policy.forward b.hidden (build_observation (obs_input job b) buffer) in
      (record b { hidden = hidden }, targets_stage job actions b)

  abbrev pub stale_frame : AiBrain F D H → AiBrain F D H
  stale_frame b = record b {
    metrics = record b.metrics { stale_frames = bump b.metrics.stale_frames };
  }

  -- `my_generation == task_generation_.load()`
  unfoldable pub check_generation :
      Job F → List F → List F → AiBrain F D H → AiBrain F D H × Stage F
  check_generation job targets actions b =
      if job.my_generation == b.task_generation
      then (b, admitted targets actions)
      else (stale_frame b, over)

  -- Rate limit, publication and bookkeeping; `FeedDog()` reads the time `now`.
  unfoldable pub commit :
      ℕ → List F → List F → AiBrain F D H → RosNode F D → AiBrain F D H × RosNode F D
  unfolding apply_rate_limit
  commit now targets actions b r =
      let joint_targets = apply_rate_limit b targets in
      (
        record (feed_dog now b) {
          prev_actions =
              for_below b.num_joints (λ i old. get_or actions i (f.lit 0 0)) b.prev_actions;
          last_joint_targets = joint_targets;
          metrics = record b.metrics { total_frames = bump b.metrics.total_frames };
        },
        publish_joint_command joint_targets r,
      )

  -- The timing metrics, and the flag.
  unfoldable pub release_flag : D → AiBrain F D H → AiBrain F D H
  release_flag elapsed_ms b = record b {
    is_inferring = false;
    metrics = record b.metrics {
      last_inference_ms = elapsed_ms;
      avg_inference_ms =
          d.add (d.mul b.metrics.avg_inference_ms (d.lit 9 1)) (d.mul elapsed_ms (d.lit 1 1));
    };
  }
