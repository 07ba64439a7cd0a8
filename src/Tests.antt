-- ===== src/Tests.antt =====
-- A small robot on which the theorems are applied: two joints, and numbers in thousandths.
mod Runs
mod Commands
mod Parts
mod Frames
mod Threads
mod Services
mod Meetings
mod Whole
use robot_brain.Base.{ℕ, ◌+◌, Option, some, List, [], ◌∷◌, replicate, true, false}
use robot_brain.Base.Int.{pos}
use robot_brain.Base.Vec3.{vec3}
use robot_brain.Float.Fixed.{Fixed, milli}
use robot_brain.Ros.{JointState, Imu, Quaternion}
use robot_brain.Ros.Cache.{Message, joint_state, imu}
use robot_brain.Brain.{BrainConfig, PolicyModel, TaskType, navigate, emergency_stop}
use robot_brain.Brain.Tasks.{Task}

abbrev pub num : ℕ → Fixed
num n = milli (pos n)

abbrev pub config : BrainConfig Fixed
config = record {
  model_path = "policy.pt";
  intra_op_threads = pos 1;
  use_gpu = false;
  num_joints = 2;
  obs_dim = 47;
  action_scale = num 250;
  default_joint_positions = num 100 ∷ num 800 ∷ [];
  control_rate_ms = pos 20;
  watchdog_timeout_ms = pos 500;
  max_joint_velocity = num 10_000;
  joint_position_limit = num 500;
  max_vel_ramp = num 1_000;
  fall_gravity_threshold = num 500;
  fall_debounce_frames = pos 5;
  ang_vel_scale = num 250;
  dof_pos_scale = num 1_000;
  dof_vel_scale = num 50;
  cmd_scale = vec3 (num 2_000) (num 2_000) (num 250);
  gait_phase_period = num 640;
  rt_enabled = false;
  rt_priority = pos 80;
  rt_use_mlockall = false;
}

-- A policy that asks for far too much, and counts its calls.
abbrev pub policy : PolicyModel Fixed ℕ
policy = record {
  forward = λ calls obs. (calls + 1, some (num 90_000 ∷ num 0 ∷ []));
  reset_hidden_state = λ calls. 0;
}

abbrev pub walk : Task Fixed
walk = record {
  task_id = "walk";
  task_type = navigate;
  command = "forward";
  vel_cmd = vec3 (num 400) (num 0) (num 0);
}

abbrev pub stop : Task Fixed
stop = record {
  task_id = "stop";
  task_type = emergency_stop;
  command = "";
  vel_cmd = vec3 (num 0) (num 0) (num 0);
}

abbrev pub joints : JointState Fixed
joints = record { position = num 120 ∷ num 790 ∷ []; velocity = num 10 ∷ num 0 ∷ num 3 ∷ [] }

abbrev pub upright : Imu Fixed
upright = record {
  angular_velocity = vec3 (num 0) (num 0) (num 0);
  orientation = record { w = num 1_000; x = num 0; y = num 0; z = num 0 };
}

abbrev pub buffer : List Fixed
buffer = replicate 47 (num 7)
