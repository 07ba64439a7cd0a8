-- ===== src/Server/Status.antt =====
-- `BuildStatusMessage` of task_session.cpp: what the status stream reports.
use robot_brain.Base.{zero, suc, ℕ, Option, none, some, List, []}
use robot_brain.Base.Int.{ℤ, pos}
use robot_brain.Base.Vec3.{Vec3}
use robot_brain.Float.{Float}
use robot_brain.Jitter.{Percentiles, get_jitter_percentiles}
use robot_brain.Ros.{RosNode, get_last_joint_targets, get_latest_proprioception}
use robot_brain.Brain.{
  get_current_velocity_command, AiBrain, TaskType, task_unknown, navigate, follow, pick,
  emergency_stop, unnamed, RobotState, idle, executing, error, standing,
}

-- `Robot::RobotStatus`, the fields that the code sets; `state` carries the number of the enum.
pub record RobotStatus (F D : Type 0) : Type 0 where
  pub state : ℕ
  pub task_type : TaskType
  pub task_generation : ℕ
  pub total_frames : ℕ
  pub dropped_frames : ℕ
  pub stale_frames : ℕ
  pub last_inference_ms : D
  pub avg_inference_ms : D
  pub joint_targets : List F
  pub joint_positions : List F
  pub jitter : Percentiles D
  pub velocity_cmd : Vec3 F
  pub timestamp_ms : ℕ

-- `RobotStatus::State`
unfoldable pub state_number : RobotState → ℕ
state_number idle = 0
state_number executing = 1
state_number error = 2
state_number standing = 3

-- `static_cast<Robot::TaskType>(n)`
unfoldable pub task_of_number : ℤ → TaskType
task_of_number (pos zero) = task_unknown
task_of_number (pos (suc zero)) = navigate
task_of_number (pos (suc (suc zero))) = follow
task_of_number (pos (suc (suc (suc zero)))) = pick
task_of_number (pos (suc (suc (suc (suc zero))))) = emergency_stop
task_of_number n = unnamed n

-- The part that comes from the ROS node, if there is one.
pub record Body (F D : Type 0) : Type 0 where
  pub joint_targets : List F
  pub joint_positions : List F
  pub jitter : Percentiles D

module _ {F D : Type 0} ⦃f : Float F⦄ ⦃d : Float D⦄ where
  unfoldable pub body_of : Option (RosNode F D) → Body F D
  body_of none = record {
    joint_targets = [];
    joint_positions = [];
    jitter = record { p50 = d.lit 0 0; p95 = d.lit 0 0; p99 = d.lit 0 0; top = d.lit 0 0 };
  }
  body_of (some r) = record {
    joint_targets = get_last_joint_targets r;
    joint_positions = (get_latest_proprioception r).joint_positions;
    jitter = get_jitter_percentiles r.jitter_stats;
  }

module _ {F D H : Type 0} ⦃f : Float F⦄ ⦃d : Float D⦄ where
  unfoldable pub build_status_message : ℕ → AiBrain F D H → Option (RosNode F D) → RobotStatus F D
  unfolding state_number task_of_number body_of
  build_status_message timestamp b ros =
      let body = body_of ros in
      record {
        state = state_number b.metrics.current_state;
        task_type = task_of_number b.metrics.current_task_type;
        task_generation = b.metrics.current_generation;
        total_frames = b.metrics.total_frames;
        dropped_frames = b.metrics.dropped_frames;
        stale_frames = b.metrics.stale_frames;
        last_inference_ms = b.metrics.last_inference_ms;
        avg_inference_ms = b.metrics.avg_inference_ms;
        joint_targets = body.joint_targets;
        joint_positions = body.joint_positions;
        jitter = body.jitter;
        velocity_cmd = get_current_velocity_command b;
        timestamp_ms = timestamp;
      }
