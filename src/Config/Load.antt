-- ===== src/Config/Load.antt =====
-- `LoadConfig` of config_manager.hpp.
use Prim.Native.String.{String}
use robot_brain.Base.{◌^◌, Option, none, some, List, length, replicate, ltb, ◌==◌, if◌then◌else◌}
use robot_brain.Float.{Float}
use robot_brain.Config.{
  Node, AppConfig, Loaded, loaded, load_failed, length_error, size_of_int, default_config,
}

infixl 10 ◌>>=◌
abbrev pub ◌>>=◌ : {A B : Type 0} → Option A → (A → Option B) → Option B
none >>= g = none
some a >>= g = g a

module _ {F : Type 0} ⦃f : Float F⦄ where
  -- The first `node[section][key]` of a section: it throws if that is a scalar.
  unfoldable pub subscripted : Node F → String → AppConfig F → Option (AppConfig F)
  subscripted n section c = if n.is_scalar section then none else some c

  unfoldable pub load_server : Node F → AppConfig F → Option (AppConfig F)
  unfolding subscripted
  load_server n c =
      if n.has "server"
      then subscripted n "server" (record c {
        host = n.as_string "server" "host" c.host;
        port = n.as_int "server" "port" c.port;
        worker_threads = n.as_int "server" "worker_threads" c.worker_threads;
      })
      else some c

  -- A list that is there and cannot be converted throws.
  unfoldable pub floats_or : Node F → String → List F → Option (List F)
  floats_or n key old = if n.has_key "ai_brain" key then n.as_floats "ai_brain" key else some old

  unfoldable pub read_brain : Node F → List F → List F → AppConfig F → AppConfig F
  read_brain n positions scale c = record c {
    policy_model_path = n.as_string "ai_brain" "policy_model_path" c.policy_model_path;
    intra_op_threads = n.as_int "ai_brain" "intra_op_threads" c.intra_op_threads;
    use_gpu = n.as_bool "ai_brain" "use_gpu" c.use_gpu;
    num_joints = n.as_int "ai_brain" "num_joints" c.num_joints;
    obs_dim = n.as_int "ai_brain" "obs_dim" c.obs_dim;
    action_scale = n.as_float "ai_brain" "action_scale" c.action_scale;
    default_joint_positions = positions;
    ang_vel_scale = n.as_float "ai_brain" "ang_vel_scale" c.ang_vel_scale;
    dof_pos_scale = n.as_float "ai_brain" "dof_pos_scale" c.dof_pos_scale;
    dof_vel_scale = n.as_float "ai_brain" "dof_vel_scale" c.dof_vel_scale;
    cmd_scale = scale;
    gait_phase_period = n.as_float "ai_brain" "gait_phase_period" c.gait_phase_period;
  }

  unfoldable pub load_lists : Node F → AppConfig F → Option (AppConfig F)
  unfolding floats_or read_brain
  load_lists n c = do
    positions ← floats_or n "default_joint_positions" c.default_joint_positions
    scale ← floats_or n "cmd_scale" c.cmd_scale
    some (read_brain n positions scale c)

  unfoldable pub load_brain : Node F → AppConfig F → Option (AppConfig F)
  unfolding load_lists
  load_brain n c =
      if n.has "ai_brain" then (if n.is_scalar "ai_brain" then none else load_lists n c) else some c

  unfoldable pub load_robot : Node F → AppConfig F → Option (AppConfig F)
  unfolding subscripted
  load_robot n c =
      if n.has "robot"
      then subscripted n "robot" (record c {
        joint_state_topic = n.as_string "robot" "joint_state_topic" c.joint_state_topic;
        imu_topic = n.as_string "robot" "imu_topic" c.imu_topic;
        joint_command_topic = n.as_string "robot" "joint_command_topic" c.joint_command_topic;
        control_rate_ms = n.as_int "robot" "control_rate_ms" c.control_rate_ms;
        watchdog_timeout_ms = n.as_int "robot" "watchdog_timeout_ms" c.watchdog_timeout_ms;
      })
      else some c

  unfoldable pub load_safety : Node F → AppConfig F → Option (AppConfig F)
  unfolding subscripted
  load_safety n c =
      if n.has "safety"
      then subscripted n "safety" (record c {
        max_joint_velocity = n.as_float "safety" "max_joint_velocity" c.max_joint_velocity;
        max_joint_accel = n.as_float "safety" "max_joint_accel" c.max_joint_accel;
        joint_position_limit = n.as_float "safety" "joint_position_limit" c.joint_position_limit;
        max_vel_ramp = n.as_float "safety" "max_vel_ramp" c.max_vel_ramp;
        fall_gravity_threshold =
            n.as_float "safety" "fall_gravity_threshold" c.fall_gravity_threshold;
        fall_debounce_frames = n.as_int "safety" "fall_debounce_frames" c.fall_debounce_frames;
      })
      else some c

  unfoldable pub load_realtime : Node F → AppConfig F → Option (AppConfig F)
  unfolding subscripted
  load_realtime n c =
      if n.has "realtime"
      then subscripted n "realtime" (record c {
        rt_enabled = n.as_bool "realtime" "enabled" c.rt_enabled;
        rt_priority = n.as_int "realtime" "priority" c.rt_priority;
        rt_use_mlockall = n.as_bool "realtime" "use_mlockall" c.rt_use_mlockall;
      })
      else some c

  -- The check of the number of positions. `max_size()` of a `std::vector<float>` is 2^61 - 1.
  unfoldable pub check_positions : AppConfig F → Loaded F
  check_positions c =
      let n = size_of_int c.num_joints in
      if length c.default_joint_positions == n
      then loaded c
      else if ltb n (2 ^ 61)
      then loaded (record c { default_joint_positions = replicate n (f.lit 0 0) })
      else length_error

  -- The sections after `ai_brain`.
  unfoldable pub load_rest : Node F → AppConfig F → Option (AppConfig F)
  unfolding load_robot load_safety load_realtime
  load_rest n c = load_robot n c >>= load_safety n >>= load_realtime n

  unfoldable pub load_sections : Node F → AppConfig F → Option (AppConfig F)
  unfolding load_server load_brain load_rest
  load_sections n c = load_server n c >>= load_brain n >>= load_rest n

  -- After the sections; `none` is a `YAML::Exception` in one of them, which is caught.
  unfoldable pub checked : Option (AppConfig F) → Loaded F
  unfolding check_positions
  checked none = load_failed
  checked (some c) = check_positions c

  -- `LoadConfig`; `none` is a file that cannot be read or parsed.
  unfoldable pub load_config : Option (Node F) → Loaded F
  unfolding checked load_sections
  load_config none = load_failed
  load_config (some n) =
      if n.is_scalar_root then load_failed else checked (load_sections n default_config)
