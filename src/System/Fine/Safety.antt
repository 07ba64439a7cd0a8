-- ===== src/System/Fine/Safety.antt =====
-- The joint commands stay within the limits where ticks, tasks and inference meet in the middle.
use robot_brain.Base.{ℕ, ◌≡◌, refl, ◌∙◌, true, false, inl, inr, Option-cases, if_cases}
use robot_brain.Float.{Float, Convert, IsIeee}
use robot_brain.Ros.{Proprioception, publish_joint_command}
use robot_brain.ThreadPool.{enqueue}
use robot_brain.Brain.{
  AiBrain, BrainConfig, Job, Machine, PolicyModel, RobotState, TaskType, emergency_stop, executing,
  standing, idle, error,
}
use robot_brain.Brain.Control.{drop_frame, set_inferring}
use robot_brain.Brain.Limits.{IsSafeConfig}
use robot_brain.System.Ticks.{Kept, detect_reset-Kept, ramp-Kept}
use robot_brain.System as system
use robot_brain.System.{World, with_brain, with_ros, boot}
use robot_brain.System.Safety.{IsSafe, Reach-IsSafe, Step-IsSafe, pose, Kept-last}
use robot_brain.System.Safety.Defs.{publish-sent}
use robot_brain.System.Fine.Tick.{
  TickPlace, out, timed, lost, fallen, watched, loaded, holding, sensed, settled, ramped, made,
  refused, win_flag, after_sense, enter_state, proceed_tick, after_enqueue,
}
use robot_brain.System.Fine.Task.{
  TaskPlace, ready, stored, counted, shown, stood, cleared, posed, going, store_task, proceed_task,
  branch,
}
use robot_brain.System.Fine.{
  Threads, Turn, enter_tick_turn, go_tick_turn, enter_task_turn, go_task_turn, other_turn,
  enter_tick, go_tick, enter_task, go_task, Run, start, next,
}

module _ {F D H : Type 0} ⦃f : Float F⦄ ⦃d : Float D⦄ ⦃c : Convert F D⦄ (laws : IsIeee F)
    {cfg : BrainConfig F} (safe : IsSafeConfig cfg) where
  -- A step that keeps the configuration and publishes nothing, or the default posture.
  Kept-IsSafe :
      (w : World F D H) (b : AiBrain F D H)
      → Kept w.machine.brain b
      → IsSafe cfg w
      → IsSafe cfg (with_brain w b)
  Kept-IsSafe w b k v = record {
    config = k.config ∙ v.config;
    last = Kept-last laws safe w.machine.brain b k v.config v.last;
    stage = v.stage;
    sent = v.sent;
  }

  same-IsSafe :
      (w : World F D H) (b : AiBrain F D H)
      → b.config ≡ w.machine.brain.config
      → b.last_joint_targets ≡ w.machine.brain.last_joint_targets
      → IsSafe cfg w
      → IsSafe cfg (with_brain w b)
  same-IsSafe w b e l v = record {
    config = e ∙ v.config;
    last = rw l v.last;
    stage = v.stage;
    sent = v.sent;
  }

  posed-IsSafe :
      (w : World F D H)
      → IsSafe cfg w
      → IsSafe cfg
          (with_ros w (publish_joint_command w.machine.brain.default_joint_positions w.machine.ros))
  posed-IsSafe w v = record {
    config = v.config;
    last = v.last;
    stage = v.stage;
    sent = publish-sent cfg _ w.machine.ros (pose laws safe w.machine.brain v.config) v.sent;
  }

  win_flag-IsSafe :
      (now : ℕ) (state : RobotState) (w : World F D H)
      → IsSafe cfg w
      → IsSafe cfg (record w { machine = (win_flag now state w.machine).0 })
  unfolding win_flag
  win_flag-IsSafe now state w v =
      if_cases (λ (x : Machine F D H × TickPlace F). IsSafe cfg (record w { machine = x.0 }))
        w.machine.brain.is_inferring _ _
        (λ _. same-IsSafe w (drop_frame w.machine.brain) refl refl v)
        (λ _. same-IsSafe w (set_inferring true w.machine.brain) refl refl v)

  enter_state-IsSafe :
      (now : ℕ) (state : RobotState) (w : World F D H)
      → IsSafe cfg w
      → IsSafe cfg (record w { machine = (enter_state now state w.machine).0 })
  unfolding enter_state
  enter_state-IsSafe now executing w v = win_flag-IsSafe now executing w v
  enter_state-IsSafe now standing w v = win_flag-IsSafe now standing w v
  enter_state-IsSafe now idle w v = posed-IsSafe w v
  enter_state-IsSafe now error w v = posed-IsSafe w v

  after_sense-IsSafe :
      (policy : PolicyModel F H) (now : ℕ) (state : RobotState) (prop : Proprioception F)
      (w : World F D H)
      → IsSafe cfg w
      → IsSafe cfg (record w { machine = (after_sense policy now state prop w.machine).0 })
  unfolding after_sense
  after_sense-IsSafe policy now state prop w v =
      if_cases (λ (x : Machine F D H × TickPlace F). IsSafe cfg (record w { machine = x.0 }))
        prop.valid _ _
        (λ _.
          Kept-IsSafe w _ (detect_reset-Kept policy prop.projected_gravity.v2 w.machine.brain) v)
        (λ _. same-IsSafe w (set_inferring false w.machine.brain) refl refl v)

  enqueue-IsSafe :
      (job : Job F) (w : World F D H)
      → IsSafe cfg w
      → IsSafe cfg (record w { machine = (after_enqueue w.machine (enqueue w.machine.pool job)).0 })
  enqueue-IsSafe job w v = elim (Option-cases (enqueue w.machine.pool job)) [
    | inl full ↦ rw full v
    | inr (pool, room) ↦
        rw room (record { config = v.config; last = v.last; stage = v.stage; sent = v.sent })
  ]

  tick-IsSafe :
      (policy : PolicyModel F H) (p : TickPlace F) (w : World F D H)
      → IsSafe cfg w
      → IsSafe cfg (record w { machine = (proceed_tick policy p w.machine).0 })
  unfolding proceed_tick
  tick-IsSafe policy (lost now) w v = same-IsSafe w _ refl refl v
  tick-IsSafe policy (fallen now) w v = same-IsSafe w _ refl refl v
  tick-IsSafe policy (loaded now state) w v = enter_state-IsSafe now state w v
  tick-IsSafe policy (sensed now state prop) w v = after_sense-IsSafe policy now state prop w v
  tick-IsSafe policy (settled now state prop) w v =
      Kept-IsSafe w _ (ramp-Kept now w.machine.brain) v
  tick-IsSafe policy (made job) w v = enqueue-IsSafe job w v
  tick-IsSafe policy refused w v = same-IsSafe w _ refl refl v
  tick-IsSafe policy out w v = v
  tick-IsSafe policy (timed now due) w v = v
  tick-IsSafe policy (watched now) w v = v
  tick-IsSafe policy (holding now state) w v = v
  tick-IsSafe policy (ramped state prop) w v = v

  branch-IsSafe :
      (k : TaskType) (w : World F D H)
      → IsSafe cfg w
      → IsSafe cfg (with_brain w (branch k w.machine.brain).0)
  branch-IsSafe emergency_stop w v = same-IsSafe w _ refl refl v
  branch-IsSafe _ w v = same-IsSafe w _ refl refl v

  task-IsSafe :
      (policy : PolicyModel F H) (now : ℕ) (q : TaskPlace F) (w : World F D H)
      → IsSafe cfg w
      → let (b, r, _) = proceed_task policy now q w.machine.brain w.machine.ros in
        IsSafe cfg (with_ros (with_brain w b) r)
  unfolding proceed_task
  task-IsSafe policy now ready w v = v
  task-IsSafe policy now (stored t) w v = same-IsSafe w _ refl refl v
  task-IsSafe policy now (counted t gen) w v = same-IsSafe w _ refl refl v
  task-IsSafe policy now (shown t) w v = branch-IsSafe t.task_type w v
  task-IsSafe policy now stood w v = record {
    config = v.config;
    last = pose laws safe w.machine.brain v.config;
    stage = v.stage;
    sent = v.sent;
  }
  task-IsSafe policy now cleared w v = posed-IsSafe w v
  task-IsSafe policy now posed w v = same-IsSafe w _ refl refl v
  task-IsSafe policy now going w v = same-IsSafe w _ refl refl v

  Turn-IsSafe :
      {policy : PolicyModel F H} {u v : Threads F D H}
      → Turn policy u v
      → IsSafe cfg u.world
      → IsSafe cfg v.world
  unfolding enter_tick go_tick enter_task store_task go_task
  Turn-IsSafe (enter_tick_turn now e) i = i
  Turn-IsSafe {policy} {u} go_tick_turn i = tick-IsSafe policy u.control u.world i
  Turn-IsSafe {u = u} (enter_task_turn t e) i = same-IsSafe u.world _ refl refl i
  Turn-IsSafe {policy} {u} (go_task_turn now) i = task-IsSafe policy now u.service u.world i
  Turn-IsSafe (other_turn s o) i = Step-IsSafe laws safe s i

  -- The limits hold also where ticks, tasks and inference meet in the middle of one another: in
  -- arithmetic that meets the IEEE 754 laws and with a safe configuration, each joint command
  -- published so far has one target for each joint, within `joint_position_limit` of its default, and
  -- so have the targets that the rate limiter goes by and those of a task under way.
  pub Run-IsSafe :
      {policy : PolicyModel F H} {hidden : H} {now : ℕ} {v : Threads F D H}
      → Run policy cfg hidden now v
      → IsSafe cfg v.world
  Run-IsSafe {policy} {hidden} {now} start =
      let first : system.Reach policy cfg hidden now (boot cfg hidden now) = system.start in
      Reach-IsSafe laws safe first
  Run-IsSafe (next r s) = Turn-IsSafe s (Run-IsSafe r)
