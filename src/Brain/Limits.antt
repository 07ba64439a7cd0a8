-- ===== src/Brain/Limits.antt =====
-- The joint limits: what the two loops over the joints and the rate limiter guarantee, for every
-- output of the policy, NaN and infinities included.
use robot_brain.Base.{
  ℕ, ◌<◌, ◌≡◌, ◌∙◌, List, arith, length, get_or, replicate, length-for_below, get_or-for_below,
  length-replicate,
}
use robot_brain.Float.{Float, IsIeee, ◌≼◌, Num, Finite}
use robot_brain.Float.Order.{approach_within, clamp_bounds}
use robot_brain.Brain.{AiBrain, BrainConfig, Job}
use robot_brain.Brain.Motion.{max_step, apply_rate_limit}
use robot_brain.Brain.Inference.{low, high, sanitize, raw_targets, limit_targets, joint_targets_of}

module _ {F : Type 0} ⦃f : Float F⦄ where
  -- A configuration with a default for each joint, and finite limits that are at least 0.
  pub record IsSafeConfig (cfg : BrainConfig F) : Type 0 where
    pub sized : length cfg.default_joint_positions ≡ cfg.num_joints
    pub defaults :
        (i : ℕ) → i < cfg.num_joints → Finite (get_or cfg.default_joint_positions i (f.lit 0 0))
    pub limit_finite : Finite cfg.joint_position_limit
    pub limit_pos : f.lit 0 0 ≼ cfg.joint_position_limit
    pub step_finite : Finite (max_step cfg)
    pub step_pos : f.lit 0 0 ≼ max_step cfg

  -- One target for each joint, within `joint_position_limit` of its default.
  abbrev pub InLimits : BrainConfig F → List F → Type 0
  InLimits cfg v =
      (length v ≡ cfg.num_joints)
      × ((i : ℕ)
          → i < cfg.num_joints
          → (low cfg i ≼ get_or v i (f.lit 0 0)) × (get_or v i (f.lit 0 0) ≼ high cfg i))

  module _ (laws : IsIeee F) where
    sanitize-Finite : (x : F) → Finite (sanitize x)
    unfolding sanitize
    sanitize-Finite x = ground (arith, laws.zero_finite)

    -- The default posture is within the limits.
    pub default-InLimits :
        (cfg : BrainConfig F) → IsSafeConfig cfg → InLimits cfg cfg.default_joint_positions
    default-InLimits cfg s = (
      s.sized,
      λ i h.
          let n = (s.defaults i h).0 in
          (
            laws.sub-le (get_or cfg.default_joint_positions i (f.lit 0 0)) cfg.joint_position_limit
                n s.limit_finite s.limit_pos,
            laws.le-add (get_or cfg.default_joint_positions i (f.lit 0 0)) cfg.joint_position_limit
                n s.limit_finite s.limit_pos,
          ),
    )

    low-le-high :
        (cfg : BrainConfig F)
        → IsSafeConfig cfg
        → (i : ℕ) → i < cfg.num_joints
        → low cfg i ≼ high cfg i
    low-le-high cfg s i h =
        let (lo, hi) = (default-InLimits cfg s).1 i h in laws.le_trans _ _ _ lo hi

    module _ {D H : Type 0} where
      raw-Num :
          (b : AiBrain F D H) (job : Job F) (actions : List F) (i : ℕ)
          → IsSafeConfig b.config
          → i < b.num_joints
          → Num (get_or (raw_targets job actions b) i (f.lit 0 0))
      unfolding raw_targets
      raw-Num b job actions i s h =
          rw
            (get_or-for_below b.num_joints _ (replicate b.num_joints (f.lit 0 0)) i (f.lit 0 0) h
              (omega (arith, length-replicate b.num_joints (f.lit 0 0))))
            (laws.add_num _ _ (s.defaults i h) (sanitize-Finite _))

      -- In IEEE 754 arithmetic and with a safe configuration, whatever the policy puts out, NaN
      -- and infinities included, and whatever the task: the computed targets are one for each
      -- joint and lie within the limits.
      pub joint_targets_of-InLimits :
          (b : AiBrain F D H) (job : Job F) (actions : List F)
          → IsSafeConfig b.config
          → InLimits b.config (joint_targets_of job actions b)
      unfolding joint_targets_of limit_targets
      joint_targets_of-InLimits b job actions s =
          let raw = raw_targets job actions b in
          let size : length raw ≡ b.num_joints = raw_size in
          (
            length-for_below b.num_joints _ raw ∙ size,
            λ i h. rw (get_or-for_below b.num_joints _ raw i (f.lit 0 0) h (omega arith)) (
                clamp_bounds laws _ _ _ (raw-Num b job actions i s h) (low-le-high b.config s i h)),
          )
        where
          raw_size : length (raw_targets job actions b) ≡ b.num_joints
          raw_size =
              unfold raw_targets in
              length-for_below b.num_joints _ (replicate b.num_joints (f.lit 0 0))
              ∙ length-replicate b.num_joints (f.lit 0 0)

      -- In IEEE 754 arithmetic and with a safe configuration, the rate limiter, which runs after
      -- the clamp, keeps targets within the limits if the last targets were: the step from the
      -- last target towards the new one never overshoots them.
      pub apply_rate_limit-InLimits :
          (b : AiBrain F D H) (targets : List F)
          → IsSafeConfig b.config
          → InLimits b.config b.last_joint_targets
          → InLimits b.config targets
          → InLimits b.config (apply_rate_limit b targets)
      unfolding apply_rate_limit
      apply_rate_limit-InLimits b targets s last new = (
        length-for_below b.num_joints _ targets ∙ new.0,
        λ i h.
            rw (get_or-for_below b.num_joints _ targets i (f.lit 0 0) h (omega (arith, new.0)))
              (approach_within laws _ _ _ _ _ s.step_finite s.step_pos (last.1 i h) (new.1 i h)),
      )
