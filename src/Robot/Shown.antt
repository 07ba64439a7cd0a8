-- ===== src/Robot/Shown.antt =====
-- The joint targets that the status stream reads.
use robot_brain.Base.{ℕ, ◌≡◌, refl, ◌∙◌, ◌⊎◌, inl, inr, List, replicate}
use robot_brain.Float.{Float, Convert, IsIeee}
use robot_brain.Ros.{
  RosNode, publish_joint_command, joint_state_callback, imu_callback, new_ros_node,
}
use robot_brain.Ros.Cache.{Message, receive, joint_state, imu}
use robot_brain.Brain.{BrainConfig, Machine, PolicyModel, TaskType, emergency_stop}
use robot_brain.Brain.Tasks.{Task, process_robot_task, dispatch, accept, emergency}
use robot_brain.Brain.Inference.{commit}
use robot_brain.Brain.Limits.{IsSafeConfig, InLimits}
use robot_brain.System.Ticks.{Ticked, quiet, posed, queued, control_loop_step-Ticked}
use robot_brain.System.Safety.{IsSafe, Reach-IsSafe, Step-IsSafe, pose}
use robot_brain.System.{
  World, boot, assign, tick, sense, fetch, run_compute, run_check, run_commit, run_release,
  run_finish, Step, tick_step, task_step, sense_step, start_rt_step, wake_step, start_rt, wake,
  fetch_step, compute_step, check_step, commit_step, release_step, finish_step, Reach, start, next,
}

-- The zeros of the constructor, or targets within the limits.
abbrev pub IsShown : {F : Type 0} ⦃f : Float F⦄ → BrainConfig F → List F → Type 0
IsShown ⦃f = f⦄ cfg v = (v ≡ replicate cfg.num_joints (f.lit 0 0)) ⊎ InLimits cfg v

module _ {F D : Type 0} ⦃f : Float F⦄ ⦃d : Float D⦄ ⦃c : Convert F D⦄ (cfg : BrainConfig F) where
  sense-IsShown :
      (msg : Message D) (r : RosNode F D)
      → IsShown cfg r.last_joint_targets
      → IsShown cfg (receive msg r).last_joint_targets
  unfolding receive joint_state_callback imu_callback
  sense-IsShown (joint_state m) r h = h
  sense-IsShown (imu m) r h = h

module _ {F D H : Type 0} ⦃f : Float F⦄ ⦃d : Float D⦄ ⦃c : Convert F D⦄ (laws : IsIeee F)
    {cfg : BrainConfig F} (safe : IsSafeConfig cfg) where
  tick-IsShown :
      (m n : Machine F D H)
      → Ticked m n
      → m.brain.config ≡ cfg
      → IsShown cfg m.ros.last_joint_targets
      → IsShown cfg n.ros.last_joint_targets
  unfolding publish_joint_command
  tick-IsShown m n (quiet k) e h = h
  tick-IsShown m n (posed {b} k) e h = inr (pose laws safe b (k.config ∙ e))
  tick-IsShown m n (queued job g k i q) e h = h

  dispatch-IsShown :
      (policy : PolicyModel F H) (now : ℕ) (k : TaskType) (t : Task F) (w : World F D H)
      → IsSafe cfg w
      → IsShown cfg w.machine.ros.last_joint_targets
      → IsShown cfg
          (dispatch k policy now (accept t w.machine.brain) w.machine.ros).1.last_joint_targets
  unfolding dispatch emergency accept publish_joint_command
  dispatch-IsShown policy now emergency_stop t w v h = inr (pose laws safe w.machine.brain v.config)
  dispatch-IsShown policy now _ t w v h = h

  -- What the rate limiter goes by is what was published.
  commit-IsShown :
      (now : ℕ) (targets actions : List F) (w : World F D H)
      → IsSafe cfg (run_commit now targets actions w)
      → IsShown cfg (run_commit now targets actions w).machine.ros.last_joint_targets
  unfolding run_commit commit publish_joint_command
  commit-IsShown now targets actions w v = inr v.last

  Step-IsShown :
      {policy : PolicyModel F H} {v w : World F D H}
      → Step policy v w
      → IsSafe cfg v
      → IsSafe cfg w
      → IsShown cfg v.machine.ros.last_joint_targets
      → IsShown cfg w.machine.ros.last_joint_targets
  unfolding tick assign process_robot_task sense start_rt wake fetch run_compute run_check
      run_release run_finish
  Step-IsShown {policy} {v} (tick_step now) i j h =
      tick-IsShown v.machine _ (control_loop_step-Ticked policy now v.machine) i.config h
  Step-IsShown {policy} {v} (task_step now t) i j h =
      dispatch-IsShown policy now t.task_type t v i h
  Step-IsShown {v = v} (sense_step msg) i j h = sense-IsShown cfg msg v.machine.ros h
  Step-IsShown (start_rt_step fifo_ok) i j h = h
  Step-IsShown (wake_step now planned p q) i j h = h
  Step-IsShown (fetch_step job rest idle e) i j h = h
  Step-IsShown (compute_step job buffer held e k) i j h = h
  Step-IsShown (check_step job targets actions held e) i j h = h
  Step-IsShown {v = v} (commit_step job now targets actions held e) i j h =
      commit-IsShown now targets actions v j
  Step-IsShown (release_step job elapsed held e) i j h = h
  Step-IsShown (finish_step job held e) i j h = h

  -- In every interleaving the node shows targets that are zeros or within the limits.
  pub Reach-IsShown :
      {policy : PolicyModel F H} {hidden : H} {now : ℕ} {w : World F D H}
      → Reach policy cfg hidden now w
      → IsShown cfg w.machine.ros.last_joint_targets
  unfolding boot new_ros_node
  Reach-IsShown start = inl refl
  Reach-IsShown (next r s) =
      let i = Reach-IsSafe laws safe r in
      Step-IsShown s i (Step-IsSafe laws safe s i) (Reach-IsShown r)
