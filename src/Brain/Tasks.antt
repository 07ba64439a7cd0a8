-- ===== src/Brain/Tasks.antt =====
-- `GetTaskProfile` and `ProcessRobotTask` of ai_brain.cpp.
use Prim.Native.String.{String}
use robot_brain.Base.{ℕ, List, map}
use robot_brain.Base.Int.{ℤ, pos}
use robot_brain.Base.Vec3.{Vec3}
use robot_brain.Float.{Float, Convert}
use robot_brain.Ros.{RosNode, publish_joint_command}
use robot_brain.Brain.{
  AiBrain, PolicyModel, TaskType, TaskProfile, task_unknown, navigate, follow, pick, emergency_stop,
  unnamed, executing, standing, bump, with_state, feed_dog,
}

-- `static_cast<int>(task_type)`
unfoldable pub task_number : TaskType → ℤ
task_number task_unknown = pos 0
task_number navigate = pos 1
task_number follow = pos 2
task_number pick = pos 3
task_number emergency_stop = pos 4
task_number (unnamed n) = n

-- `AssignTask`'s arguments, as `TaskSession` hands them over.
pub record Task (F : Type 0) : Type 0 where
  pub task_id : String
  pub task_type : TaskType
  pub command : String
  pub vel_cmd : Vec3 F

module _ {F : Type 0} ⦃f : Float F⦄ where
  unfoldable pub get_task_profile : TaskType → TaskProfile F
  get_task_profile navigate = record { velocity_scale = f.lit 10 1; action_scale = f.lit 10 1 }
  get_task_profile follow = record { velocity_scale = f.lit 6 1; action_scale = f.lit 8 1 }
  get_task_profile pick = record { velocity_scale = f.lit 3 1; action_scale = f.lit 5 1 }
  get_task_profile _ = record { velocity_scale = f.lit 0 0; action_scale = f.lit 0 0 }

  -- `std::fill(v.begin(), v.end(), 0.0f)`
  abbrev pub fill_zero : List F → List F
  fill_zero = map (λ a. f.lit 0 0)

module _ {F D H : Type 0} ⦃f : Float F⦄ ⦃d : Float D⦄ ⦃c : Convert F D⦄ where
  -- Up to the metrics: what every task does.
  unfoldable pub accept : Task F → AiBrain F D H → AiBrain F D H
  unfolding task_number
  accept t b =
      let gen = bump b.task_generation in
      record b {
        current_task_id = t.task_id;
        current_command = t.command;
        current_task_type = t.task_type;
        velocity_cmd = t.vel_cmd;
        task_generation = gen;
        metrics = record b.metrics {
          current_generation = gen;
          current_task_type = task_number t.task_type;
        };
      }

  -- The branch for an emergency stop.
  unfoldable pub emergency :
      PolicyModel F H → ℕ → AiBrain F D H → RosNode F D → AiBrain F D H × RosNode F D
  emergency policy now b r = (
    feed_dog now (
        with_state standing (record b {
          prev_actions = fill_zero b.prev_actions;
          hidden = policy.reset_hidden_state b.hidden;
          last_joint_targets = b.default_joint_positions;
        })),
    publish_joint_command b.default_joint_positions r,
  )

  unfoldable pub dispatch :
      TaskType → PolicyModel F H → ℕ → AiBrain F D H → RosNode F D → AiBrain F D H × RosNode F D
  unfolding emergency
  dispatch emergency_stop policy now b r = emergency policy now b r
  dispatch _ policy now b r = (feed_dog now (with_state executing b), r)

  unfoldable pub process_robot_task :
      PolicyModel F H → ℕ → Task F → AiBrain F D H → RosNode F D → AiBrain F D H × RosNode F D
  unfolding accept dispatch
  process_robot_task policy now t b r = dispatch t.task_type policy now (accept t b) r
