-- ===== src/Brain/Watchdog.antt =====
-- The watchdog of `ControlLoopStep`, through the whole tick.
use robot_brain.Base.{ℕ, arith, ◌⊎◌, inl, inr, Option-cases, ◌≡◌, refl, true, some, if_cases}
use robot_brain.Base.Int.{ltb_ℤ, sub_ℕ}
use robot_brain.Base.Vec3.{Vec3, vec3}
use robot_brain.Float.{Float, Convert}
use robot_brain.Ros.{RosNode, Proprioception, get_latest_proprioception}
use robot_brain.ThreadPool.{ThreadPool, enqueue}
use robot_brain.Brain.{
  AiBrain, Job, Machine, PolicyModel, executing, standing, zero_vec, with_state,
}
use robot_brain.Brain.Motion.{ramp_velocity_command}
use robot_brain.Brain.Control.{
  watchdog, prepare, velocity_of, submitted, infer_frame, try_infer, step_in_state,
  control_loop_step, make_job, set_inferring, detect_reset,
}

module _ {F : Type 0} ⦃f : Float F⦄ where
  -- The fixed command of the standing state.
  abbrev pub standing_velocity : Vec3 F
  standing_velocity = vec3 (f.lit 5 1) (f.lit 0 0) (f.lit 0 0)

module _ {F D H : Type 0} ⦃f : Float F⦄ where
  -- Standing with no user velocity; nothing is published, and a frame that was submitted walks on with
  -- the fixed command.
  pub record Stood (ros : RosNode F D) (pool : ThreadPool (Job F)) (q : Machine F D H)
      : Type 0 where
    pub state : q.brain.metrics.current_state ≡ standing
    pub velocity : q.brain.velocity_cmd ≡ zero_vec
    pub silent : q.ros ≡ ros
    pub submitted :
        (q.pool ≡ pool)
        ⊎ ((job : Job F) × (enqueue pool job ≡ some q.pool)
            × (job.scaled_vel_cmd ≡ standing_velocity))

  abbrev AtRest : AiBrain F D H → Type 0
  AtRest b = (b.metrics.current_state ≡ standing) × (b.velocity_cmd ≡ zero_vec)

  prepare-AtRest :
      (policy : PolicyModel F H) (now : ℕ) (prop : Proprioception F) (b : AiBrain F D H)
      → AtRest b
      → AtRest (prepare policy now prop b)
  unfolding prepare detect_reset ramp_velocity_command
  prepare-AtRest policy now prop b r = (ground arith, ground arith)

  submitted-Stood :
      (m : Machine F D H) (b : AiBrain F D H) (job : Job F)
      → AtRest b
      → job.scaled_vel_cmd ≡ standing_velocity
      → Stood m.ros m.pool (submitted (record m { brain = b }) (enqueue m.pool job))
  unfolding submitted
  submitted-Stood m b job r v = elim (Option-cases (enqueue m.pool job)) [
    | inl e ↦ rw e (record { state = r.0; velocity = r.1; silent = refl; submitted = inl refl })
    | inr (pool, e) ↦
        rw e (record { state = r.0; velocity = r.1; silent = refl; submitted = inr (job, e, v) })
  ]

  try_infer-Stood :
      (policy : PolicyModel F H) (now : ℕ) (m : Machine F D H)
      → AtRest m.brain
      → Stood m.ros m.pool (try_infer policy now standing m)
  unfolding try_infer infer_frame make_job velocity_of
  try_infer-Stood policy now m r =
      if_cases {A = Machine F D H} (λ q. Stood m.ros m.pool q) m.brain.is_inferring _ _
        (λ _. record { state = r.0; velocity = r.1; silent = refl; submitted = inl refl })
        (λ _.
          if_cases {A = Machine F D H} (λ q. Stood m.ros m.pool q)
            (get_latest_proprioception m.ros).valid _ _
            (λ _.
              let prop = get_latest_proprioception m.ros in
              let b = prepare policy now prop (set_inferring true m.brain) in
              submitted-Stood m b (make_job standing prop b)
                (prepare-AtRest policy now prop (set_inferring true m.brain) r) refl)
            (λ _. record { state = r.0; velocity = r.1; silent = refl; submitted = inl refl }))

  watchdog_expired :
      (now : ℕ) (b : AiBrain F D H)
      → b.metrics.current_state ≡ executing
      → ltb_ℤ b.watchdog_timeout_ms (sub_ℕ now b.last_heartbeat_ms) ≡ true
      → watchdog now b ≡ record (with_state standing b) { velocity_cmd = zero_vec }
  unfolding watchdog
  watchdog_expired now b e h = simp (e, h)

module _ {F D H : Type 0} ⦃f : Float F⦄ ⦃d : Float D⦄ ⦃c : Convert F D⦄ where
  -- When the heartbeat is older than the timeout while the robot executes a task, the tick leaves it
  -- standing with the user's velocity cleared and publishes nothing itself; but a frame that it
  -- submits goes on with the fixed forward command 0.5, not with a velocity of zero.
  pub watchdog_expiry :
      (policy : PolicyModel F H) (now : ℕ) (m : Machine F D H)
      → m.brain.metrics.current_state ≡ executing
      → ltb_ℤ m.brain.watchdog_timeout_ms (sub_ℕ now m.brain.last_heartbeat_ms) ≡ true
      → Stood m.ros m.pool (control_loop_step policy now m)
  unfolding control_loop_step step_in_state
  watchdog_expiry policy now m e h = rw (watchdog_expired now m.brain e h) (
      try_infer-Stood policy now
        (record m { brain = record (with_state standing m.brain) { velocity_cmd = zero_vec } })
        (refl, refl))
