-- ===== src/Brain/Race.antt =====
-- The watchdog reads the heartbeat and the state one after the other, and no lock joins them.
use robot_brain.Base.{ℕ, ◌≡◌, ◌≢◌, refl, true}
use robot_brain.Float.{Float, Convert}
use robot_brain.Ros.{RosNode}
use robot_brain.Brain.{AiBrain, PolicyModel, TaskType, emergency_stop, standing, bump, zero_vec}
use robot_brain.Brain.Tasks.{Task, process_robot_task, dispatch, accept}
use robot_brain.Brain.Control.{watchdog_due, watchdog_clear}

module _ {F D H : Type 0} ⦃f : Float F⦄ ⦃d : Float D⦄ ⦃c : Convert F D⦄ where
  -- `b` stands with no velocity, though it has accepted the task `t`, at the time `later`, as the next
  -- generation after `old`.
  pub record IsCancelled (t : Task F) (later : ℕ) (old b : AiBrain F D H) : Type 0 where
    pub state : b.metrics.current_state ≡ standing
    pub velocity : b.velocity_cmd ≡ zero_vec
    pub accepted : b.current_task_type ≡ t.task_type
    pub generation : b.task_generation ≡ bump old.task_generation
    pub heartbeat : b.last_heartbeat_ms ≡ later

  cancelled :
      (k : TaskType) (policy : PolicyModel F H) (later : ℕ) (t : Task F) (b : AiBrain F D H)
      (r : RosNode F D)
      → k ≢ emergency_stop
      → IsCancelled t later b (watchdog_clear true (dispatch k policy later (accept t b) r).0)
  unfolding watchdog_clear dispatch accept
  cancelled emergency_stop policy later t b r h = absurd (h refl)
  cancelled _ policy later t b r h = record {
    state = refl;
    velocity = refl;
    accepted = refl;
    generation = refl;
    heartbeat = refl;
  }

  -- If the tick has read an expired heartbeat and a task other than an emergency stop is accepted
  -- before it reads the state, the watchdog then cancels the new task, whose heartbeat is fresh: the
  -- robot stands with the velocity cleared, and the generation is that of the new task.
  pub watchdog_cancels_new_task :
      (policy : PolicyModel F H) (now later : ℕ) (t : Task F) (b : AiBrain F D H) (r : RosNode F D)
      → watchdog_due now b ≡ true
      → t.task_type ≢ emergency_stop
      → let (accepted, _) = process_robot_task policy later t b r in
        IsCancelled t later b (watchdog_clear (watchdog_due now b) accepted)
  unfolding process_robot_task
  watchdog_cancels_new_task policy now later t b r e h =
      rw e (cancelled t.task_type policy later t b r h)
