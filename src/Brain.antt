-- ===== src/Brain.antt =====
-- src/RobotBrain/include/engine/business/ai_brain.h and src/RobotBrain/src/business/ai_brain.cpp:
-- the state of `AIBrain`. The policy network is a library behind `PolicyModel`, a parameter.
pub mod Lifetime
pub mod Tasks
pub mod Motion
pub mod Falls
pub mod Race
pub mod Ramp
pub mod Watchdog
pub mod Limits
pub mod Observation
pub mod Inference
pub mod Control
use Prim.Native.String.{String}
use robot_brain.Base.{ℕ, suc, ◌+◌, ◌%◌, ◌^◌, Bool, true, false, Option, List, [], replicate, get_or}
use robot_brain.Base.Int.{ℤ, pos}
use robot_brain.Base.Vec3.{Vec3, vec3}
use robot_brain.Float.{Float}
use robot_brain.Ros.{Proprioception, RosNode}
use robot_brain.ThreadPool.{ThreadPool}

-- `Robot::TaskType`; an open enum also carries numbers that it does not name.
pub data TaskType : Type 0 where
  task_unknown navigate follow pick emergency_stop : TaskType
  unnamed : ℤ → TaskType

pub data RobotState : Type 0 where
  idle executing error standing : RobotState

pub record TaskProfile (F : Type 0) : Type 0 where
  pub velocity_scale : F
  pub action_scale : F

pub record BrainConfig (F : Type 0) : Type 0 where
  pub model_path : String
  pub intra_op_threads : ℤ
  pub use_gpu : Bool
  pub num_joints : ℕ
  pub obs_dim : ℕ
  pub action_scale : F
  pub default_joint_positions : List F
  pub control_rate_ms : ℤ
  pub watchdog_timeout_ms : ℤ
  pub max_joint_velocity : F
  pub joint_position_limit : F
  pub max_vel_ramp : F
  pub fall_gravity_threshold : F
  pub fall_debounce_frames : ℤ
  pub ang_vel_scale : F
  pub dof_pos_scale : F
  pub dof_vel_scale : F
  pub cmd_scale : Vec3 F
  pub gait_phase_period : F
  pub rt_enabled : Bool
  pub rt_priority : ℤ
  pub rt_use_mlockall : Bool

pub record RuntimeMetrics (D : Type 0) : Type 0 where
  pub total_frames : ℕ
  pub dropped_frames : ℕ
  pub stale_frames : ℕ
  pub last_inference_ms : D
  pub avg_inference_ms : D
  pub current_generation : ℕ
  pub current_state : RobotState
  pub current_task_type : ℤ

-- `Forward` takes the recurrent state and an observation; `none` is an exception of a type that derives
-- from `std::exception`, as all that the library behind it throws do.
pub record PolicyModel (F H : Type 0) : Type 0 where
  pub forward : H → List F → H × Option (List F)
  pub reset_hidden_state : H → H

pub record AiBrain (F D H : Type 0) : Type 0 where
  pub config : BrainConfig F
  pub open config use {
    num_joints, obs_dim, default_joint_positions, watchdog_timeout_ms, max_joint_velocity,
    joint_position_limit, max_vel_ramp, fall_gravity_threshold, fall_debounce_frames, ang_vel_scale,
    dof_pos_scale, dof_vel_scale, cmd_scale, gait_phase_period,
  }
  pub control_dt : F
  -- The recurrent state inside `policy_model_`.
  pub hidden : H
  pub fall_debounce_count : ℕ
  pub current_vel_cmd : Vec3 F
  pub last_heartbeat_ms : ℕ
  pub is_inferring : Bool
  pub task_generation : ℕ
  pub current_task_id : String
  pub current_command : String
  pub current_task_type : TaskType
  pub velocity_cmd : Vec3 F
  pub prev_actions : List F
  pub last_joint_targets : List F
  pub last_control_ms : ℕ
  -- The `static` of `ControlLoopStep`.
  pub last_gravity_z : F
  pub metrics : RuntimeMetrics D

-- What the closure given to the pool captures.
pub record Job (F : Type 0) : Type 0 where
  pub prop : Proprioception F
  pub scaled_vel_cmd : Vec3 F
  pub my_generation : ℕ
  pub profile : TaskProfile F

-- The brain with what it calls: the ROS node and its inference pool.
pub record Machine (F D H : Type 0) : Type 0 where
  pub brain : AiBrain F D H
  pub ros : RosNode F D
  pub pool : ThreadPool (Job F)

-- `++` on a `uint64_t`
abbrev pub bump : ℕ → ℕ
bump n = (n + 1) % 2 ^ 64

module _ {F : Type 0} ⦃f : Float F⦄ where
  abbrev pub zero_vec : Vec3 F
  zero_vec = vec3 (f.lit 0 0) (f.lit 0 0) (f.lit 0 0)

module _ {F D H : Type 0} ⦃f : Float F⦄ ⦃d : Float D⦄ where
  -- The constructor, at the time `now`, with a freshly loaded policy.
  unfoldable pub new_brain : BrainConfig F → H → ℕ → AiBrain F D H
  new_brain config hidden now = record {
    config = config;
    control_dt = f.div (f.of_int config.control_rate_ms) (f.lit 10_000 1);
    hidden = hidden;
    fall_debounce_count = 0;
    current_vel_cmd = zero_vec;
    last_heartbeat_ms = now;
    is_inferring = false;
    task_generation = 0;
    current_task_id = "";
    current_command = "";
    current_task_type = task_unknown;
    velocity_cmd = zero_vec;
    prev_actions = replicate config.num_joints (f.lit 0 0);
    last_joint_targets = config.default_joint_positions;
    last_control_ms = now;
    last_gravity_z = f.neg (f.lit 10 1);
    metrics = record {
      total_frames = 0;
      dropped_frames = 0;
      stale_frames = 0;
      last_inference_ms = d.lit 0 0;
      avg_inference_ms = d.lit 0 0;
      current_generation = 0;
      current_state = standing;
      current_task_type = pos 0;
    };
  }

module _ {F D H : Type 0} where
  abbrev pub get_current_velocity_command : AiBrain F D H → Vec3 F
  get_current_velocity_command b = b.current_vel_cmd

  abbrev pub with_state : RobotState → AiBrain F D H → AiBrain F D H
  with_state s b = record b { metrics = record b.metrics { current_state = s } }

  -- `FeedDog()` at the time `now`.
  abbrev pub feed_dog : ℕ → AiBrain F D H → AiBrain F D H
  feed_dog now b = record b { last_heartbeat_ms = now }
