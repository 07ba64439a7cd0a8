-- ===== src/System/Fine/Task.antt =====
-- `ProcessRobotTask` of ai_brain.cpp, cut at each access to what another thread can change.
use robot_brain.Base.{ℕ}
use robot_brain.Float.{Float, Convert}
use robot_brain.Ros.{RosNode, publish_joint_command}
use robot_brain.Brain.{
  AiBrain, PolicyModel, TaskType, emergency_stop, executing, standing, bump, with_state, feed_dog,
}
use robot_brain.Brain.Tasks.{Task, task_number, fill_zero}

-- Where the gRPC thread is.
pub data TaskPlace (F : Type 0) : Type 0 where
  -- Between two tasks.
  ready : TaskPlace F
  -- The command is stored, and the lock released.
  stored : Task F → TaskPlace F
  -- `gen = ++task_generation_`
  counted : Task F → ℕ → TaskPlace F
  -- The metrics tell of the task.
  shown : Task F → TaskPlace F
  -- An emergency stop has stored STANDING,
  stood : TaskPlace F
  -- has cleared what the policy goes by,
  cleared : TaskPlace F
  -- has published the default posture.
  posed : TaskPlace F
  -- Another task has stored EXECUTING.
  going : TaskPlace F

module _ {F D H : Type 0} where
  -- What is done under the lock.
  unfoldable pub store_task : Task F → AiBrain F D H → AiBrain F D H
  store_task t b = record b {
    current_task_id = t.task_id;
    current_command = t.command;
    current_task_type = t.task_type;
    velocity_cmd = t.vel_cmd;
  }

  abbrev pub branch : TaskType → AiBrain F D H → AiBrain F D H × TaskPlace F
  branch emergency_stop b = (with_state standing b, stood)
  branch _ b = (with_state executing b, going)

module _ {F D H : Type 0} ⦃f : Float F⦄ ⦃d : Float D⦄ ⦃c : Convert F D⦄ where
  -- The next access of `ProcessRobotTask`; `now` is the time where it feeds the dog.
  unfoldable pub proceed_task :
      PolicyModel F H
      → ℕ
      → TaskPlace F
      → AiBrain F D H
      → RosNode F D
      → AiBrain F D H × RosNode F D × TaskPlace F
  unfolding task_number
  proceed_task policy now ready b r = (b, r, ready)
  proceed_task policy now (stored t) b r =
      let gen = bump b.task_generation in (record b { task_generation = gen }, r, counted t gen)
  proceed_task policy now (counted t gen) b r = (
    record b {
      metrics = record b.metrics {
        current_generation = gen;
        current_task_type = task_number t.task_type;
      };
    },
    r,
    shown t,
  )
  proceed_task policy now (shown t) b r = let (b₁, p) = branch t.task_type b in (b₁, r, p)
  proceed_task policy now stood b r = (
    record b {
      prev_actions = fill_zero b.prev_actions;
      hidden = policy.reset_hidden_state b.hidden;
      last_joint_targets = b.default_joint_positions;
    },
    r,
    cleared,
  )
  proceed_task policy now cleared b r =
      (b, publish_joint_command b.default_joint_positions r, posed)
  proceed_task policy now posed b r = (feed_dog now b, r, ready)
  proceed_task policy now going b r = (feed_dog now b, r, ready)
