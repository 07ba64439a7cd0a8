-- ===== src/Tests/Commands.antt =====
-- The theorems on the velocity command, the watchdog, the status stream and the configuration.
use robot_brain.Base.{ℕ, ◌≡◌, refl, arith, some, none, [], ◌∷◌, ◌++◌, length, true, false}
use robot_brain.Base.Int.{pos, negsuc}
use robot_brain.Base.Vec3.{vec3}
use robot_brain.Float.Fixed.{Fixed, fixed_float, fixed_convert, Fixed-IsIeee}
use robot_brain.Ros.{Proprioception, new_ros_node}
use robot_brain.ThreadPool.{create}
use robot_brain.Brain.{AiBrain, Machine, new_brain, with_state, executing}
use robot_brain.Brain.Motion.{ramp_velocity_command}
use robot_brain.Brain.Control.{elapsed_dt, control_loop_step}
use robot_brain.Brain.Tasks.{process_robot_task}
use robot_brain.Brain.Falls.{detect_all, detect_all_lem}
use robot_brain.Brain.Ramp.{Between, ramp-Between}
use robot_brain.Brain.Watchdog.{Stood, watchdog_expiry}
use robot_brain.Brain.Control.{watchdog_due, watchdog_clear}
use robot_brain.Brain.Race.{IsCancelled, watchdog_cancels_new_task}
use robot_brain.Config.{Node, AppConfig, default_config, brain_config_of}
use robot_brain.Config.Load.{load_config}
use robot_brain.Config.Sizes.{load_config_sized}
use robot_brain.Config.Failures.{outcome, too_long, outcome-load_config}
use robot_brain.Tests.{config, policy, walk, num}

abbrev walking : AiBrain Fixed Fixed ℕ
walking = record (with_state executing (new_brain config 0 1_000)) {
  velocity_cmd = vec3 (num 400) (num 0) (num 0);
}

ramp-Between_example :
    Between
      (num 0)
      (num 400)
      (ramp_velocity_command (elapsed_dt 1_020 walking) walking).current_vel_cmd
unfolding new_brain
ramp-Between_example =
    ramp-Between Fixed-IsIeee 1_020 walking (num 0) (num 400) (omega arith) (omega arith)
      (refl, refl) refl ((refl, refl), (refl, refl), (refl, refl))
      ((refl, refl), (refl, refl), (refl, refl))

abbrev machine : Machine Fixed Fixed ℕ
machine = record { brain = walking; ros = new_ros_node 2; pool = create 1 10 }

-- A second after the last heartbeat.
watchdog_expiry_example : Stood machine.ros machine.pool (control_loop_step policy 2_000 machine)
unfolding new_brain
watchdog_expiry_example = watchdog_expiry policy 2_000 machine refl refl

-- The task comes a millisecond after the tick has read the old heartbeat.
watchdog_cancels_new_task_example : IsCancelled walk 2_001 walking (
    watchdog_clear
      (watchdog_due 2_000 walking)
      (process_robot_task policy 2_001 walk walking machine.ros).0)
unfolding new_brain watchdog_due
watchdog_cancels_new_task_example =
    watchdog_cancels_new_task policy 2_000 2_001 walk walking machine.ros refl (λ e. cc)

-- A file that sets three joints and forgets their positions.
abbrev node : Node Fixed
node = record {
  is_scalar_root = false;
  is_scalar = λ section. false;
  has = λ section. true;
  as_string = λ section key old. old;
  as_int = λ section key old. pos 3;
  as_bool = λ section key old. old;
  as_float = λ section key old. old;
  has_key = λ section key. false;
  as_floats = λ section key. none;
}

abbrev three : AppConfig Fixed
three = record default_config {
  port = pos 3;
  worker_threads = pos 3;
  intra_op_threads = pos 3;
  num_joints = pos 3;
  obs_dim = pos 3;
  control_rate_ms = pos 3;
  watchdog_timeout_ms = pos 3;
  fall_debounce_frames = pos 3;
  rt_priority = pos 3;
  default_joint_positions = num 0 ∷ num 0 ∷ num 0 ∷ [];
}

load_config_sized_example :
    (◌≡◌ {A = ℕ} 0 0)
    × (length (brain_config_of "policy.pt" three).default_joint_positions
        ≡ (brain_config_of "policy.pt" three).num_joints)
unfolding load_config default_config
load_config_sized_example =
    load_config_sized (some node) three "policy.pt" refl (omega arith) (omega arith)

-- A file that asks for -1 joints.
abbrev negative : Node Fixed
negative = record node { as_int = λ section key old. negsuc 0 }

outcome-load_config_example : outcome (load_config (some negative)) ≡ too_long
outcome-load_config_example =
    outcome-load_config (some negative) ((omega arith, omega arith), λ key xs e. absurd (cc))

-- Two frames on the ground, a level one, and three more on the ground, of the five that make a fall.
abbrev lying : Proprioception Fixed
lying = record {
  joint_positions = [];
  joint_velocities = [];
  angular_velocity = vec3 (num 0) (num 0) (num 0);
  projected_gravity = vec3 (num 0) (num 0) (num 900);
  valid = true;
}

abbrev level : Proprioception Fixed
level = record lying { projected_gravity = vec3 (num 0) (num 0) (num 0) }

detect_all_lem_example :
    let (report, after) =
      detect_all ((lying ∷ lying ∷ lying ∷ []) ++ level ∷ lying ∷ lying ∷ []) walking in
    ((detect_all (level ∷ lying ∷ lying ∷ []) walking).0 ≡ false)
    × (report ≡ false)
    × (after.fall_debounce_count ≡ 3)
unfolding new_brain
detect_all_lem_example =
    detect_all_lem 5 lying (lying ∷ lying ∷ []) level (lying ∷ lying ∷ []) walking refl refl
      (refl, (refl, (refl, tt))) (omega arith)
