-- ===== src/Config.antt =====
-- src/RobotBrain/include/engine/infra/config_manager.hpp and the part of src/RobotBrain/src/main.cpp
-- that makes a `BrainConfig`. The parsed file belongs to the YAML library and is a parameter.
pub mod Load
pub mod Sections
pub mod Sizes
pub mod Failures
use Prim.Native.String.{String}
use robot_brain.Base.{
  ℕ, ◌^◌, ◌-◌, Bool, Option, List, [], ◌∷◌, get_or, leb, if◌then◌else◌, true, false,
}
use robot_brain.Base.Int.{ℤ, pos, pos_part, neg_part}
use robot_brain.Base.Vec3.{vec3}
use robot_brain.Float.{Float}
use robot_brain.Brain.{BrainConfig}

-- What the loader asks of `YAML::Node`: `as<T>(fallback)` gives the fallback where it cannot convert,
-- `as<std::vector<float>>()` throws there, and `node[a][b]` in a condition asks whether it is there.
-- `node[a]` throws `YAML::BadSubscript` where the node is a scalar, the root or a section.
pub record Node (F : Type 0) : Type 0 where
  pub is_scalar_root : Bool
  pub has : String → Bool
  pub is_scalar : String → Bool
  pub as_string : String → String → String → String
  pub as_int : String → String → ℤ → ℤ
  pub as_bool : String → String → Bool → Bool
  pub as_float : String → String → F → F
  pub has_key : String → String → Bool
  pub as_floats : String → String → Option (List F)

pub record AppConfig (F : Type 0) : Type 0 where
  pub host : String
  pub port : ℤ
  pub worker_threads : ℤ
  pub policy_model_path : String
  pub intra_op_threads : ℤ
  pub use_gpu : Bool
  pub num_joints : ℤ
  pub obs_dim : ℤ
  pub action_scale : F
  pub default_joint_positions : List F
  pub ang_vel_scale : F
  pub dof_pos_scale : F
  pub dof_vel_scale : F
  pub cmd_scale : List F
  pub gait_phase_period : F
  pub joint_state_topic : String
  pub imu_topic : String
  pub joint_command_topic : String
  pub control_rate_ms : ℤ
  pub watchdog_timeout_ms : ℤ
  pub max_joint_velocity : F
  pub max_joint_accel : F
  pub joint_position_limit : F
  pub max_vel_ramp : F
  pub fall_gravity_threshold : F
  pub fall_debounce_frames : ℤ
  pub rt_enabled : Bool
  pub rt_priority : ℤ
  pub rt_use_mlockall : Bool

-- How `LoadConfig` ends: with a configuration, with its `std::runtime_error`, or with the
-- `std::length_error` of an `assign` that asks for too many elements, which nobody catches there.
pub data Loaded (F : Type 0) : Type 0 where
  loaded : AppConfig F → Loaded F
  load_failed : Loaded F
  length_error : Loaded F

-- `static_cast<size_t>(n)`
abbrev pub size_of_int : ℤ → ℕ
size_of_int n = if leb (neg_part n) (pos_part n) then pos_part n else 2 ^ 64 - neg_part n

module _ {F : Type 0} ⦃f : Float F⦄ where
  unfoldable pub default_config : AppConfig F
  default_config = record {
    host = "0.0.0.0";
    port = pos 50_051;
    worker_threads = pos 4;
    policy_model_path = "";
    intra_op_threads = pos 2;
    use_gpu = false;
    num_joints = pos 12;
    obs_dim = pos 47;
    action_scale = f.lit 25 2;
    default_joint_positions = [];
    ang_vel_scale = f.lit 10 1;
    dof_pos_scale = f.lit 10 1;
    dof_vel_scale = f.lit 10 1;
    cmd_scale = f.lit 10 1 ∷ f.lit 10 1 ∷ f.lit 10 1 ∷ [];
    gait_phase_period = f.lit 8 1;
    joint_state_topic = "/joint_states";
    imu_topic = "/imu";
    joint_command_topic = "/joint_commands";
    control_rate_ms = pos 20;
    watchdog_timeout_ms = pos 500;
    max_joint_velocity = f.lit 10 1;
    max_joint_accel = f.lit 50 1;
    joint_position_limit = f.lit 5 1;
    max_vel_ramp = f.lit 20 1;
    fall_gravity_threshold = f.neg (f.lit 5 1);
    fall_debounce_frames = pos 25;
    rt_enabled = true;
    rt_priority = pos 80;
    rt_use_mlockall = true;
  }

  -- The mapping in `main`; `path` is the model path made absolute. `obs_dim` is used only as a `size_t`,
  -- and is converted here; the number of joints of a file that has loaded is not negative.
  unfoldable pub brain_config_of : String → AppConfig F → BrainConfig F
  brain_config_of path c = record {
    model_path = path;
    intra_op_threads = c.intra_op_threads;
    use_gpu = c.use_gpu;
    num_joints = pos_part c.num_joints;
    obs_dim = size_of_int c.obs_dim;
    action_scale = c.action_scale;
    default_joint_positions = c.default_joint_positions;
    control_rate_ms = c.control_rate_ms;
    watchdog_timeout_ms = c.watchdog_timeout_ms;
    max_joint_velocity = c.max_joint_velocity;
    joint_position_limit = c.joint_position_limit;
    max_vel_ramp = c.max_vel_ramp;
    fall_gravity_threshold = c.fall_gravity_threshold;
    fall_debounce_frames = c.fall_debounce_frames;
    ang_vel_scale = c.ang_vel_scale;
    dof_pos_scale = c.dof_pos_scale;
    dof_vel_scale = c.dof_vel_scale;
    cmd_scale =
        vec3 (get_or c.cmd_scale 0 (f.lit 10 1)) (get_or c.cmd_scale 1 (f.lit 10 1))
          (get_or c.cmd_scale 2 (f.lit 10 1));
    gait_phase_period = c.gait_phase_period;
    rt_enabled = c.rt_enabled;
    rt_priority = c.rt_priority;
    rt_use_mlockall = c.rt_use_mlockall;
  }
