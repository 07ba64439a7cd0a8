-- ===== src/System/Overtaking.antt =====
-- An emergency stop that arrives after the comparison of generations.
use robot_brain.Base.{ℕ, ◌≡◌, refl, List, ◌∷◌, map}
use robot_brain.Float.{Float, Convert}
use robot_brain.Ros.{publish_joint_command}
use robot_brain.Brain.{PolicyModel, TaskType, emergency_stop}
use robot_brain.Brain.Tasks.{Task, process_robot_task, dispatch, accept}
use robot_brain.Brain.Motion.{apply_rate_limit}
use robot_brain.Brain.Inference.{admitted, commit}
use robot_brain.System.{World, assign, run_commit, with_brain, with_ros}

module _ {F D H : Type 0} ⦃f : Float F⦄ ⦃d : Float D⦄ ⦃c : Convert F D⦄ where
  overtaken :
      (policy : PolicyModel F H) (w : World F D H) (t : Task F) (later now : ℕ)
      (targets actions : List F) (k : TaskType)
      → k ≡ emergency_stop
      → let (b, r) = dispatch k policy now (accept t w.machine.brain) w.machine.ros in
        let stopped = with_ros (with_brain w b) r in
        (run_commit later targets actions stopped).machine.ros.published
        ≡ map c.widen (apply_rate_limit stopped.machine.brain targets)
          ∷ map c.widen w.machine.brain.default_joint_positions
          ∷ w.machine.ros.published
  unfolding run_commit commit dispatch accept publish_joint_command
  overtaken policy w t later now targets actions emergency_stop e = refl
  overtaken policy w t later now targets actions _ e = cc

  -- The comparison does not protect the publication that follows it: if an emergency stop arrives
  -- after the comparison has passed, the task stays admitted and its commit publishes its
  -- rate-limited targets on top of the default posture that the stop has just commanded.
  pub stop_overtaken :
      (policy : PolicyModel F H) (w : World F D H) (t : Task F) (later now : ℕ)
      (targets actions : List F)
      → t.task_type ≡ emergency_stop
      → w.stage ≡ admitted targets actions
      → let stopped = assign policy now t w in
        (stopped.stage ≡ admitted targets actions)
        × ((run_commit later targets actions stopped).machine.ros.published
            ≡ map c.widen (apply_rate_limit stopped.machine.brain targets)
              ∷ map c.widen w.machine.brain.default_joint_positions
              ∷ w.machine.ros.published)
  unfolding assign process_robot_task
  stop_overtaken policy w t later now targets actions e s =
      (s, overtaken policy w t later now targets actions t.task_type e)
