-- ===== src/Brain/Observation.antt =====
-- `BuildObservation` of ai_brain.cpp: the observation vector.
pub mod Writes
pub mod Layout
use mathlib.Core.Path.{subst}
use native.Mathlib.Decide.{dec_lt}
use robot_brain.Base.{
  ℕ, zero, suc, ◌+◌, ◌≤◌, ◌<◌, ◌≡◌, refl, sym, ap, ◌∙◌, lt→ltb, not_lt→ltb, List, [], ◌∷◌, ◌++◌,
  ◌-◌, ltb, ◌==◌, if◌then◌else◌, arith, length, get_or, set, write_range, length-set,
  length-write_range, get_or-set_self, get_or-set_ne, get_or-write_range, get_or-write_range_below,
  get_or-append_left, ext_get_or,
}
use robot_brain.Base.Vec3.{Vec3}
use robot_brain.Float.{Float}
use robot_brain.Ros.{Proprioception}

-- The arguments of `BuildObservation`, the output buffer aside.
pub record ObsInput (F : Type 0) : Type 0 where
  pub prop : Proprioception F
  pub vel_cmd : Vec3 F
  pub default_dof : List F
  pub prev_actions : List F
  pub num_joints : ℕ
  pub ang_vel_scale : F
  pub dof_pos_scale : F
  pub dof_vel_scale : F
  pub cmd_scale : Vec3 F
  pub sin_phase : F
  pub cos_phase : F

module _ {F : Type 0} ⦃f : Float F⦄ where
  open f use {lit, mul, sub}

  -- What the three loops write for joint `i`.
  abbrev pub position_term : ObsInput F → ℕ → F
  position_term o i =
      mul (sub (get_or o.prop.joint_positions i (lit 0 0)) (get_or o.default_dof i (lit 0 0)))
        o.dof_pos_scale

  abbrev pub velocity_term : ObsInput F → ℕ → F
  velocity_term o i = mul (get_or o.prop.joint_velocities i (lit 0 0)) o.dof_vel_scale

  abbrev pub action_term : ObsInput F → ℕ → F
  action_term o i = get_or o.prev_actions i (lit 0 0)

  -- The writes to p[0] .. p[8].
  unfoldable pub write_base : ObsInput F → List F → List F
  write_base o p₀ =
      let p₁ = set p₀ 0 (mul o.prop.angular_velocity.v0 o.ang_vel_scale) in
      let p₂ = set p₁ 1 (mul o.prop.angular_velocity.v1 o.ang_vel_scale) in
      let p₃ = set p₂ 2 (mul o.prop.angular_velocity.v2 o.ang_vel_scale) in
      let p₄ = set p₃ 3 o.prop.projected_gravity.v0 in
      let p₅ = set p₄ 4 o.prop.projected_gravity.v1 in
      let p₆ = set p₅ 5 o.prop.projected_gravity.v2 in
      let p₇ = set p₆ 6 (mul o.vel_cmd.v0 o.cmd_scale.v0) in
      let p₈ = set p₇ 7 (mul o.vel_cmd.v1 o.cmd_scale.v1) in
      set p₈ 8 (mul o.vel_cmd.v2 o.cmd_scale.v2)

  unfoldable pub write_joints : ObsInput F → List F → List F
  write_joints o p =
      let p₁ = write_range 9 o.num_joints (position_term o) p in
      let p₂ = write_range 21 o.num_joints (velocity_term o) p₁ in
      write_range 33 o.num_joints (action_term o) p₂

  unfoldable pub write_phase : ObsInput F → List F → List F
  write_phase o p = set (set p 45 o.sin_phase) 46 o.cos_phase

  unfoldable pub build_observation : ObsInput F → List F → List F
  build_observation o buffer = write_phase o (write_joints o (write_base o buffer))

  -- The first nine entries: angular velocity, gravity and the commanded velocity.
  abbrev pub base_terms : ObsInput F → List F
  base_terms o =
      mul o.prop.angular_velocity.v0 o.ang_vel_scale
      ∷ mul o.prop.angular_velocity.v1 o.ang_vel_scale
      ∷ mul o.prop.angular_velocity.v2 o.ang_vel_scale
      ∷ o.prop.projected_gravity.v0
      ∷ o.prop.projected_gravity.v1
      ∷ o.prop.projected_gravity.v2
      ∷ mul o.vel_cmd.v0 o.cmd_scale.v0
      ∷ mul o.vel_cmd.v1 o.cmd_scale.v1
      ∷ mul o.vel_cmd.v2 o.cmd_scale.v2
      ∷ []

  -- The layout that the comment above `BuildObservation` gives, entry by entry.
  abbrev pub layout : ObsInput F → ℕ → F
  layout o j =
      if ltb j 9
      then get_or (base_terms o) j (lit 0 0)
      else if ltb j 21
      then position_term o (j - 9)
      else if ltb j 33
      then velocity_term o (j - 21)
      else if ltb j 45
      then action_term o (j - 33)
      else if j == 45
      then o.sin_phase
      else o.cos_phase
