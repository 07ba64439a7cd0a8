-- ===== src/Server/Report.antt =====
-- What a status message says after a task.
use robot_brain.Base.{ℕ, ◌≡◌, refl, ◌∙◌, some}
use robot_brain.Float.{Float, Convert}
use robot_brain.Ros.{RosNode}
use robot_brain.Brain.{
  AiBrain, PolicyModel, TaskType, task_unknown, navigate, follow, pick, emergency_stop, unnamed,
  bump,
}
use robot_brain.Brain.Tasks.{Task, task_number, process_robot_task, dispatch, accept}
use robot_brain.Server.Status.{build_status_message, task_of_number}

-- A type that the protocol names.
abbrev pub IsNamed : TaskType → Type 0
IsNamed (unnamed n) = ⊥
IsNamed k = Unit

task_of_number-task_number : (k : TaskType) → IsNamed k → task_of_number (task_number k) ≡ k
unfolding task_of_number task_number
task_of_number-task_number task_unknown h = refl
task_of_number-task_number navigate h = refl
task_of_number-task_number follow h = refl
task_of_number-task_number pick h = refl
task_of_number-task_number emergency_stop h = refl
task_of_number-task_number (unnamed n) h = absurd h

-- The state reported for a task of this type.
abbrev pub reported_state : TaskType → ℕ
reported_state emergency_stop = 3
reported_state k = 1

module _ {F D H : Type 0} ⦃f : Float F⦄ ⦃d : Float D⦄ ⦃c : Convert F D⦄ where
  dispatch-report :
      (k : TaskType) (policy : PolicyModel F H) (now timestamp : ℕ) (t : Task F) (b : AiBrain F D H)
      (r : RosNode F D)
      → let (b₁, r₁) = dispatch k policy now (accept t b) r in
        let m = build_status_message timestamp b₁ (some r₁) in
        (m.task_type ≡ task_of_number (task_number t.task_type))
        × (m.task_generation ≡ bump b.task_generation)
        × (m.state ≡ reported_state k)
  unfolding dispatch accept build_status_message
  dispatch-report emergency_stop policy now timestamp t b r = (refl, refl, refl)
  dispatch-report _ policy now timestamp t b r = (refl, refl, refl)

  -- Right after a task of a named type, the status message reports that type, the next generation,
  -- and the state STANDING for an emergency stop and EXECUTING for the others.
  pub build_status_message_lem :
      (policy : PolicyModel F H) (now timestamp : ℕ) (t : Task F) (b : AiBrain F D H)
      (r : RosNode F D)
      → IsNamed t.task_type
      → let (b₁, r₁) = process_robot_task policy now t b r in
        let m = build_status_message timestamp b₁ (some r₁) in
        (m.task_type ≡ t.task_type)
        × (m.task_generation ≡ bump b.task_generation)
        × (m.state ≡ reported_state t.task_type)
  unfolding process_robot_task
  build_status_message_lem policy now timestamp t b r h =
      let (kind, generation, state) = dispatch-report t.task_type policy now timestamp t b r in
      (kind ∙ task_of_number-task_number t.task_type h, generation, state)
