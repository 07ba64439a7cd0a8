-- ===== src/System/Ticks/Keeping.antt =====
-- What the parts of `ControlLoopStep` leave alone in the brain.
use robot_brain.Base.{
  ℕ, ◌≡◌, refl, sym, ap, ◌∙◌, ◌⊎◌, inl, inr, true, false, ◌&&◌, Bool-cases, arith,
}
use robot_brain.Base.Int.{ltb_ℤ, sub_ℕ}
use robot_brain.Float.{Float, Convert}
use robot_brain.Ros.{Proprioception}
use robot_brain.Brain.{AiBrain, PolicyModel, standing}
use robot_brain.Brain.Motion.{ramp_velocity_command}
use robot_brain.Brain.Control.{
  detect_reset, elapsed_dt, watchdog, prepare, is_executing, set_inferring, drop_frame,
}

module _ {F D H : Type 0} where
  -- The flag, the generations, the frame counters, the reported task type and the configuration
  -- stay; the last targets stay or go to the default, and the state stays or becomes STANDING.
  pub record Kept (b c : AiBrain F D H) : Type 0 where
    pub config : c.config ≡ b.config
    pub flag : c.is_inferring ≡ b.is_inferring
    pub generation : c.task_generation ≡ b.task_generation
    pub reported : c.metrics.current_generation ≡ b.metrics.current_generation
    pub total : c.metrics.total_frames ≡ b.metrics.total_frames
    pub stale : c.metrics.stale_frames ≡ b.metrics.stale_frames
    pub task_type : c.metrics.current_task_type ≡ b.metrics.current_task_type
    pub state :
        (c.metrics.current_state ≡ b.metrics.current_state) ⊎ (c.metrics.current_state ≡ standing)
    pub targets :
        (c.last_joint_targets ≡ b.last_joint_targets)
        ⊎ (c.last_joint_targets ≡ b.default_joint_positions)

  pub Kept-refl : (b : AiBrain F D H) → Kept b b
  Kept-refl b = record {
    config = refl;
    flag = refl;
    generation = refl;
    reported = refl;
    total = refl;
    stale = refl;
    task_type = refl;
    state = inl refl;
    targets = inl refl;
  }

module _ {F D H : Type 0} ⦃f : Float F⦄ ⦃d : Float D⦄ ⦃c : Convert F D⦄ where
  pub watchdog-Kept : (now : ℕ) (b : AiBrain F D H) → Kept b (watchdog now b)
  unfolding watchdog
  watchdog-Kept now b =
      elim (Bool-cases (
        ltb_ℤ b.watchdog_timeout_ms (sub_ℕ now b.last_heartbeat_ms)
        && is_executing b.metrics.current_state)) [
          | inl e ↦
              rw (e, watchdog)
                (record {
                  config = refl;
                  flag = refl;
                  generation = refl;
                  reported = refl;
                  total = refl;
                  stale = refl;
                  task_type = refl;
                  state = inr refl;
                  targets = inl refl;
                })
          | inr e ↦ rw (e, watchdog) (Kept-refl b)
        ]

  pub Kept-trans : (a b c : AiBrain F D H) → Kept a b → Kept b c → Kept a c
  Kept-trans a b c p q = record {
    config = q.config ∙ p.config;
    flag = q.flag ∙ p.flag;
    generation = q.generation ∙ p.generation;
    reported = q.reported ∙ p.reported;
    total = q.total ∙ p.total;
    stale = q.stale ∙ p.stale;
    task_type = q.task_type ∙ p.task_type;
    state = state p.state q.state;
    targets = targets p.targets q.targets;
  }
    where
      state :
          (b.metrics.current_state ≡ a.metrics.current_state) ⊎ (b.metrics.current_state ≡ standing)
          → (c.metrics.current_state ≡ b.metrics.current_state)
            ⊎ (c.metrics.current_state ≡ standing)
          → (c.metrics.current_state ≡ a.metrics.current_state)
            ⊎ (c.metrics.current_state ≡ standing)
      state s (inr e) = inr e
      state (inl k) (inl e) = inl (e ∙ k)
      state (inr k) (inl e) = inr (e ∙ k)

      pose : b.default_joint_positions ≡ a.default_joint_positions
      pose = ap (λ g. g.default_joint_positions) p.config

      targets :
          (b.last_joint_targets ≡ a.last_joint_targets)
            ⊎ (b.last_joint_targets ≡ a.default_joint_positions)
          → (c.last_joint_targets ≡ b.last_joint_targets)
            ⊎ (c.last_joint_targets ≡ b.default_joint_positions)
          → (c.last_joint_targets ≡ a.last_joint_targets)
            ⊎ (c.last_joint_targets ≡ a.default_joint_positions)
      targets l (inr e) = inr (e ∙ pose)
      targets (inl k) (inl e) = inl (e ∙ k)
      targets (inr k) (inl e) = inr (e ∙ k)

  pub detect_reset-Kept :
      (policy : PolicyModel F H) (z : F) (b : AiBrain F D H) → Kept b (detect_reset policy z b)
  unfolding detect_reset
  detect_reset-Kept policy z b = record {
    config = ground arith;
    flag = ground arith;
    generation = ground arith;
    reported = ground arith;
    total = ground arith;
    stale = ground arith;
    task_type = ground arith;
    state = inl (ground arith);
    targets = ground arith;
  }

  pub ramp-Kept :
      (now : ℕ) (b : AiBrain F D H)
      → Kept b (ramp_velocity_command (elapsed_dt now b) (record b { last_control_ms = now }))
  unfolding ramp_velocity_command
  ramp-Kept now b = record {
    config = refl;
    flag = refl;
    generation = refl;
    reported = refl;
    total = refl;
    stale = refl;
    task_type = refl;
    state = inl refl;
    targets = inl refl;
  }

  pub prepare-Kept :
      (policy : PolicyModel F H) (now : ℕ) (prop : Proprioception F) (b : AiBrain F D H)
      → Kept b (prepare policy now prop b)
  unfolding prepare
  prepare-Kept policy now prop b =
      let b₁ = detect_reset policy prop.projected_gravity.v2 b in
      Kept-trans b b₁ _ (detect_reset-Kept policy prop.projected_gravity.v2 b) (ramp-Kept now b₁)

  -- A frame that is not submitted leaves the flag as it was found, false.
  pub dropped-Kept :
      (a b : AiBrain F D H)
      → a.is_inferring ≡ false
      → Kept (set_inferring true a) b
      → Kept a (set_inferring false b)
  dropped-Kept a b e k = record {
    config = k.config;
    flag = sym e;
    generation = k.generation;
    reported = k.reported;
    total = k.total;
    stale = k.stale;
    task_type = k.task_type;
    state = k.state;
    targets = k.targets;
  }

  pub flagged-Kept :
      (a b : AiBrain F D H) → Kept a b → Kept (set_inferring true a) (set_inferring true b)
  flagged-Kept a b k = record {
    config = k.config;
    flag = refl;
    generation = k.generation;
    reported = k.reported;
    total = k.total;
    stale = k.stale;
    task_type = k.task_type;
    state = k.state;
    targets = k.targets;
  }

  pub drop-Kept : (b : AiBrain F D H) → Kept b (drop_frame b)
  drop-Kept b = record {
    config = refl;
    flag = refl;
    generation = refl;
    reported = refl;
    total = refl;
    stale = refl;
    task_type = refl;
    state = inl refl;
    targets = inl refl;
  }
