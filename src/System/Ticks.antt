-- ===== src/System/Ticks.antt =====
-- What one call of `ControlLoopStep` can do, seen from outside.
mod Keeping
pub use Keeping.{Kept, detect_reset-Kept, ramp-Kept, watchdog-Kept}
use robot_brain.System.Ticks.Keeping.{
  Kept-trans, prepare-Kept, dropped-Kept, flagged-Kept, drop-Kept,
}
use robot_brain.Base.{
  ℕ, ◌≡◌, refl, sym, ap, ◌∙◌, ◌⊎◌, inl, inr, true, false, ◌&&◌, some, Bool-cases, if_cases,
  Option-cases, arith,
}
use robot_brain.Base.Int.{ltb_ℤ, sub_ℕ}
use robot_brain.Float.{Float, Convert}
use robot_brain.Ros.{Proprioception, get_latest_proprioception, publish_joint_command}
use robot_brain.ThreadPool.{ThreadPool, enqueue}
use robot_brain.Brain.{
  AiBrain, Machine, Job, PolicyModel, RobotState, idle, executing, error, standing,
}
use robot_brain.Brain.Motion.{ramp_velocity_command}
use robot_brain.Brain.Control.{
  detect_reset, elapsed_dt, watchdog, prepare, make_job, submitted, infer_frame, try_infer,
  step_in_state, control_loop_step, is_executing, set_inferring, drop_frame,
}

module _ {F D H : Type 0} ⦃f : Float F⦄ ⦃d : Float D⦄ ⦃c : Convert F D⦄ where
  pub data Ticked (m : Machine F D H) : Machine F D H → Type 0 where
    quiet : {b : AiBrain F D H} → Kept m.brain b → Ticked m (record m { brain = b })
    posed :
        {b : AiBrain F D H}
        → Kept m.brain b
        → Ticked m
            (record m { brain = b; ros = publish_joint_command b.default_joint_positions m.ros })
    queued :
        {b : AiBrain F D H} {p : ThreadPool (Job F)} (job : Job F)
        → m.brain.is_inferring ≡ false
        → Kept (set_inferring true m.brain) b
        → job.my_generation ≡ b.task_generation
        → enqueue m.pool job ≡ some p
        → Ticked m (record m { brain = b; pool = p })

  submitted-Ticked :
      (m : Machine F D H) (b : AiBrain F D H) (job : Job F)
      → m.brain.is_inferring ≡ false
      → Kept (set_inferring true m.brain) b
      → job.my_generation ≡ b.task_generation
      → Ticked m (submitted (record m { brain = b }) (enqueue m.pool job))
  unfolding submitted
  submitted-Ticked m b job e k g = elim (Option-cases (enqueue m.pool job)) [
    | inl full ↦
        rw (full, submitted)
          (quiet
            (Kept-trans _ _ _ (dropped-Kept m.brain b e k) (drop-Kept (set_inferring false b))))
    | inr (p, room) ↦ rw (room, submitted) (queued job e k g room)
  ]

  infer_frame-Ticked :
      (policy : PolicyModel F H) (now : ℕ) (state : RobotState) (prop : Proprioception F)
      (m : Machine F D H) (b : AiBrain F D H)
      → m.brain.is_inferring ≡ false
      → Kept m.brain b
      → Ticked m (infer_frame policy now state prop (record m { brain = set_inferring true b }))
  unfolding infer_frame make_job
  infer_frame-Ticked policy now state prop m b e k =
      let b₁ = set_inferring true b in
      let b₂ = prepare policy now prop b₁ in
      if_cases (Ticked m) prop.valid _ _
        (λ _.
          submitted-Ticked m b₂ (make_job state prop b₂) e
            (Kept-trans _ _ _ (flagged-Kept m.brain b k) (prepare-Kept policy now prop b₁)) refl)
        (λ _. quiet (dropped-Kept m.brain b₁ e (flagged-Kept m.brain b k)))

  try_infer-Ticked :
      (policy : PolicyModel F H) (now : ℕ) (state : RobotState) (m : Machine F D H)
      (b : AiBrain F D H)
      → Kept m.brain b
      → Ticked m (try_infer policy now state (record m { brain = b }))
  unfolding try_infer
  try_infer-Ticked policy now state m b k =
      if_cases (Ticked m) b.is_inferring _ _ (λ _. quiet (Kept-trans _ _ _ k (drop-Kept b)))
        (λ e.
          infer_frame-Ticked policy now state (get_latest_proprioception m.ros) m b (sym k.flag ∙ e)
            k)

  step-Ticked :
      (policy : PolicyModel F H) (now : ℕ) (state : RobotState) (m : Machine F D H)
      (b : AiBrain F D H)
      → Kept m.brain b
      → Ticked m (step_in_state state policy now (record m { brain = b }))
  unfolding step_in_state
  step-Ticked policy now idle m b k = posed k
  step-Ticked policy now executing m b k = try_infer-Ticked policy now executing m b k
  step-Ticked policy now error m b k = posed k
  step-Ticked policy now standing m b k = try_infer-Ticked policy now standing m b k

  -- A tick leaves pool and topic alone, or publishes the default posture, or, if no inference was
  -- running, sets the flag and submits one task that carries the current generation. The
  -- configuration, the generations, the reported task type and the counts of published and stale
  -- frames stay, the last targets stay or go back to the default, and the state stays or becomes
  -- STANDING.
  pub control_loop_step-Ticked :
      (policy : PolicyModel F H) (now : ℕ) (m : Machine F D H)
      → Ticked m (control_loop_step policy now m)
  unfolding control_loop_step
  control_loop_step-Ticked policy now m =
      let b = watchdog now m.brain in
      step-Ticked policy now b.metrics.current_state m b (watchdog-Kept now m.brain)
