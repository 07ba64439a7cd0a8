-- ===== src/Robot/Silence/Frames.antt =====
-- The frame that a tick submits while the flag is clear and the readings are valid.
use robot_brain.Base.{
  ℕ, ◌≡◌, ◌≢◌, refl, sym, ◌∙◌, ◌⊎◌, inl, inr, true, false, some, [], ◌∷◌, arith, if_cases,
}
use robot_brain.Float.{Float, Convert}
use robot_brain.Ros.{Proprioception, get_latest_proprioception}
use robot_brain.ThreadPool.{ThreadPool, enqueue}
use robot_brain.Brain.{Job, Machine, PolicyModel, RobotState, idle, executing, error, standing}
use robot_brain.Brain.Control.{
  watchdog, prepare, make_job, submitted, infer_frame, try_infer, step_in_state, control_loop_step,
  set_inferring,
}
use robot_brain.System.Ticks.{watchdog-Kept}

true_not_false : true ≢ false
true_not_false e = cc

enqueue-empty :
    {T : Type 0} (p : ThreadPool T) (t : T)
    → p.tasks ≡ []
    → p.max_queue ≡ 10
    → enqueue p t ≡ some (record p { tasks = t ∷ [] })
unfolding enqueue
enqueue-empty p t e q = ground arith

module _ {F D H : Type 0} ⦃f : Float F⦄ ⦃d : Float D⦄ ⦃c : Convert F D⦄ where
  -- A frame made of these readings is the one task of the pool.
  abbrev pub HasFrame : Proprioception F → Machine F D H → Type 0
  HasFrame p m = (job : Job F) × (m.pool.tasks ≡ job ∷ []) × (job.prop ≡ p)

  infer_frame-HasFrame :
      (policy : PolicyModel F H) (now : ℕ) (s : RobotState) (p : Proprioception F)
      (m : Machine F D H)
      → p.valid ≡ true
      → m.pool.tasks ≡ []
      → m.pool.max_queue ≡ 10
      → HasFrame p (infer_frame policy now s p m)
  unfolding infer_frame
  infer_frame-HasFrame policy now s p m v e q =
      let b = prepare policy now p m.brain in
      let job = make_job s p b in
      if_cases (HasFrame p) p.valid _ _
        (λ _. rw (enqueue-empty m.pool job e q, submitted) (job, refl, unfold make_job in refl))
        (λ dark. absurd (true_not_false (sym v ∙ dark)))

  step_in_state-HasFrame :
      (policy : PolicyModel F H) (now : ℕ) (s : RobotState) (m : Machine F D H)
      → (s ≡ standing) ⊎ (s ≡ executing)
      → m.brain.is_inferring ≡ false
      → (get_latest_proprioception m.ros).valid ≡ true
      → m.pool.tasks ≡ []
      → m.pool.max_queue ≡ 10
      → HasFrame (get_latest_proprioception m.ros) (step_in_state s policy now m)
  unfolding step_in_state try_infer
  step_in_state-HasFrame policy now standing m a h v e q = rw h (
      infer_frame-HasFrame policy now standing _ (record m { brain = set_inferring true m.brain }) v
        e q)
  step_in_state-HasFrame policy now executing m a h v e q = rw h (
      infer_frame-HasFrame policy now executing _ (record m { brain = set_inferring true m.brain })
        v e q)
  step_in_state-HasFrame policy now idle m (inl a) h v e q = cc
  step_in_state-HasFrame policy now idle m (inr a) h v e q = cc
  step_in_state-HasFrame policy now error m (inl a) h v e q = cc
  step_in_state-HasFrame policy now error m (inr a) h v e q = cc

  -- The watchdog leaves the node standing or executing, its flag and its pool as they were.
  pub control_loop_step-HasFrame :
      (policy : PolicyModel F H) (now : ℕ) (m : Machine F D H)
      → (m.brain.metrics.current_state ≡ standing) ⊎ (m.brain.metrics.current_state ≡ executing)
      → m.brain.is_inferring ≡ false
      → (get_latest_proprioception m.ros).valid ≡ true
      → m.pool.tasks ≡ []
      → m.pool.max_queue ≡ 10
      → HasFrame (get_latest_proprioception m.ros) (control_loop_step policy now m)
  unfolding control_loop_step
  control_loop_step-HasFrame policy now m a h v e q =
      let b = watchdog now m.brain in
      let k = watchdog-Kept now m.brain in
      step_in_state-HasFrame policy now b.metrics.current_state (record m { brain = b })
        (still_active k.state a) (k.flag ∙ h) v e q
    where
      still_active :
          {s t : RobotState}
          → (t ≡ s) ⊎ (t ≡ standing)
          → (s ≡ standing) ⊎ (s ≡ executing)
          → (t ≡ standing) ⊎ (t ≡ executing)
      still_active (inr down) a = inl down
      still_active (inl same) (inl a) = inl (same ∙ a)
      still_active (inl same) (inr a) = inr (same ∙ a)
