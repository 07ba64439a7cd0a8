-- ===== src/System/Safety.antt =====
-- Every joint command that leaves the node is within the limits, over every interleaving.
pub mod Defs
mod Frame
pub use Defs.{StageInLimits, MessageInLimits, IsSafe}
use robot_brain.System.Safety.Defs.{publish-sent}
use robot_brain.System.Safety.Frame.{compute-IsSafe, check-IsSafe, commit-IsSafe}
use mathlib.Core.Path.{subst}
use robot_brain.Base.{
  ℕ, ◌≡◌, refl, sym, ◌∙◌, ◌⊎◌, inl, inr, Option, none, some, List, map, All, if_cases, ◌==◌,
}
use robot_brain.Float.{Float, Convert, IsIeee}
use robot_brain.Ros.{RosNode, publish_joint_command, new_ros_node}
use robot_brain.Ros.Cache.{Message, receive, joint_state, imu}
use robot_brain.Brain.{
  AiBrain, BrainConfig, Job, Machine, PolicyModel, TaskType, emergency_stop, new_brain,
}
use robot_brain.Brain.Tasks.{Task, process_robot_task, dispatch, accept}
use robot_brain.Brain.Motion.{apply_rate_limit}
use robot_brain.Brain.Limits.{
  IsSafeConfig, InLimits, default-InLimits, joint_targets_of-InLimits, apply_rate_limit-InLimits,
}
use robot_brain.Brain.Inference.{
  Stage, computed, admitted, compute, check_generation, commit, release_flag, targets_stage,
  joint_targets_of,
}
use robot_brain.System.Ticks.{Kept, Ticked, quiet, posed, queued, control_loop_step-Ticked}
use robot_brain.System.{
  World, boot, assign, tick, sense, fetch, run_compute, run_check, run_commit, run_release,
  run_finish, Step, tick_step, task_step, sense_step, start_rt_step, wake_step, start_rt, wake,
  fetch_step, compute_step, check_step, commit_step, release_step, finish_step, Reach, start, next,
  with_brain, with_ros,
}

module _ {F D H : Type 0} ⦃f : Float F⦄ ⦃d : Float D⦄ ⦃c : Convert F D⦄ (laws : IsIeee F)
    {cfg : BrainConfig F} (safe : IsSafeConfig cfg) where
  pub pose : (b : AiBrain F D H) → b.config ≡ cfg → InLimits cfg b.default_joint_positions
  pose b e =
      subst (λ g. InLimits cfg g.default_joint_positions) (sym e) (default-InLimits laws cfg safe)

  pub Kept-last :
      (a b : AiBrain F D H)
      → Kept a b
      → a.config ≡ cfg
      → InLimits cfg a.last_joint_targets
      → InLimits cfg b.last_joint_targets
  Kept-last a b k e l = go k.targets
    where
      go :
          (b.last_joint_targets ≡ a.last_joint_targets)
            ⊎ (b.last_joint_targets ≡ a.default_joint_positions)
          → InLimits cfg b.last_joint_targets
      go (inl same) = subst (InLimits cfg) (sym same) l
      go (inr reset) = subst (InLimits cfg) (sym reset) (pose a e)

  boot-IsSafe : (hidden : H) (now : ℕ) → IsSafe {D = D} cfg (boot cfg hidden now)
  unfolding boot new_brain new_ros_node
  boot-IsSafe hidden now = record {
    config = refl;
    last = default-InLimits laws cfg safe;
    stage = tt;
    sent = tt;
  }

  tick-IsSafe :
      (w : World F D H) (m : Machine F D H)
      → Ticked w.machine m
      → IsSafe cfg w
      → IsSafe cfg (record w { machine = m })
  tick-IsSafe w m (quiet {b} k) v = record {
    config = k.config ∙ v.config;
    last = Kept-last w.machine.brain b k v.config v.last;
    stage = v.stage;
    sent = v.sent;
  }
  tick-IsSafe w m (posed {b} k) v = record {
    config = k.config ∙ v.config;
    last = Kept-last w.machine.brain b k v.config v.last;
    stage = v.stage;
    sent =
        publish-sent cfg b.default_joint_positions w.machine.ros (pose b (k.config ∙ v.config))
          v.sent;
  }
  tick-IsSafe w m (queued {b} job e k g q) v = record {
    config = k.config ∙ v.config;
    last = Kept-last _ b k v.config v.last;
    stage = v.stage;
    sent = v.sent;
  }

  dispatch-IsSafe :
      (policy : PolicyModel F H) (now : ℕ) (k : TaskType) (t : Task F) (w : World F D H)
      → IsSafe cfg w
      → let (b, r) = dispatch k policy now (accept t w.machine.brain) w.machine.ros in
        IsSafe cfg (with_ros (with_brain w b) r)
  unfolding dispatch accept
  dispatch-IsSafe policy now emergency_stop t w v = record {
    config = v.config;
    last = pose w.machine.brain v.config;
    stage = v.stage;
    sent = publish-sent cfg _ w.machine.ros (pose w.machine.brain v.config) v.sent;
  }
  dispatch-IsSafe policy now _ t w v = record {
    config = v.config;
    last = v.last;
    stage = v.stage;
    sent = v.sent;
  }

  sense-IsSafe : (msg : Message D) (w : World F D H) → IsSafe cfg w → IsSafe cfg (sense msg w)
  unfolding sense receive
  sense-IsSafe (joint_state m) w v = record {
    config = v.config;
    last = v.last;
    stage = v.stage;
    sent = v.sent;
  }
  sense-IsSafe (imu m) w v = record {
    config = v.config;
    last = v.last;
    stage = v.stage;
    sent = v.sent;
  }

  pub Step-IsSafe :
      {policy : PolicyModel F H} {v w : World F D H} → Step policy v w → IsSafe cfg v → IsSafe cfg w
  unfolding tick assign process_robot_task start_rt wake fetch run_release run_finish release_flag
  Step-IsSafe {policy} {v} (tick_step now) i =
      tick-IsSafe v _ (control_loop_step-Ticked policy now v.machine) i
  Step-IsSafe {policy} {v} (task_step now t) i = dispatch-IsSafe policy now t.task_type t v i
  Step-IsSafe {v = v} (sense_step msg) i = sense-IsSafe msg v i
  Step-IsSafe (start_rt_step fifo_ok) i = record {
    config = i.config;
    last = i.last;
    stage = i.stage;
    sent = i.sent;
  }
  Step-IsSafe (wake_step now planned p q) i = record {
    config = i.config;
    last = i.last;
    stage = i.stage;
    sent = i.sent;
  }
  Step-IsSafe (fetch_step job rest h e) i = record {
    config = i.config;
    last = i.last;
    stage = i.stage;
    sent = i.sent;
  }
  Step-IsSafe {policy} {v} (compute_step job buffer h e k) i =
      compute-IsSafe laws safe policy job buffer v i
  Step-IsSafe {v = v} (check_step job targets actions h e) i =
      check-IsSafe laws safe job targets actions v e i
  Step-IsSafe {v = v} (commit_step job now targets actions h e) i =
      commit-IsSafe laws safe now targets actions v e i
  Step-IsSafe (release_step job elapsed h e) i = record {
    config = i.config;
    last = i.last;
    stage = tt;
    sent = i.sent;
  }
  Step-IsSafe (finish_step job h e) i = record {
    config = i.config;
    last = i.last;
    stage = tt;
    sent = i.sent;
  }

  -- In arithmetic that meets the IEEE 754 laws, with a configuration whose defaults are one for
  -- each joint and finite and whose limits are finite and at least 0: for every policy, whatever
  -- it puts out, and every interleaving of ticks, tasks, sensor messages and inference, each
  -- joint command published so far has one target for each joint, within `joint_position_limit`
  -- of its default, and so have the targets that the rate limiter goes by and those of a task
  -- under way.
  pub Reach-IsSafe :
      {policy : PolicyModel F H} {hidden : H} {now : ℕ} {w : World F D H}
      → Reach policy cfg hidden now w
      → IsSafe cfg w
  Reach-IsSafe {hidden = hidden} {now = now} start = boot-IsSafe hidden now
  Reach-IsSafe (next r s) = Step-IsSafe s (Reach-IsSafe r)
