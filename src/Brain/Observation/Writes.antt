-- ===== src/Brain/Observation/Writes.antt =====
-- What each group of writes of `BuildObservation` does to the buffer.
use robot_brain.Base.{
  ℕ, ◌+◌, ◌≤◌, ◌<◌, ◌≡◌, refl, ◌∙◌, List, ◌∷◌, ◌++◌, arith, length, get_or, set, write_range,
  length-set, length-write_range, get_or-set_self, get_or-set_ne, get_or-write_range,
  get_or-write_range_below,
}
use robot_brain.Float.{Float}
use robot_brain.Brain.Observation.{
  ObsInput, position_term, velocity_term, action_term, write_base, write_joints, write_phase,
  build_observation, base_terms,
}

module _ {F : Type 0} ⦃f : Float F⦄ where
  open f use {lit, mul, sub}

  pub write_base_lem :
      (o : ObsInput F) (p : List F)
      → 9 ≤ length p
      → (rest : List F) × (write_base o p ≡ base_terms o ++ rest)
  unfolding write_base
  write_base_lem o (x₀ ∷ x₁ ∷ x₂ ∷ x₃ ∷ x₄ ∷ x₅ ∷ x₆ ∷ x₇ ∷ x₈ ∷ rest) h = (rest, refl)
  write_base_lem o _ h = absurd (omega arith)

  pub length-write_base :
      (o : ObsInput F) (p : List F) → 9 ≤ length p → length (write_base o p) ≡ length p
  unfolding write_base
  length-write_base o (x₀ ∷ x₁ ∷ x₂ ∷ x₃ ∷ x₄ ∷ x₅ ∷ x₆ ∷ x₇ ∷ x₈ ∷ rest) h = refl
  length-write_base o _ h = absurd (omega arith)

  pub length-write_joints : (o : ObsInput F) (p : List F) → length (write_joints o p) ≡ length p
  unfolding write_joints
  length-write_joints o p =
      let n = o.num_joints in
      let p₁ = write_range 9 n (position_term o) p in
      let p₂ = write_range 21 n (velocity_term o) p₁ in
      length-write_range 33 n (action_term o) p₂
      ∙ length-write_range 21 n (velocity_term o) p₁
      ∙ length-write_range 9 n (position_term o) p

  pub length-build_observation :
      (o : ObsInput F) (p : List F) → 9 ≤ length p → length (build_observation o p) ≡ length p
  unfolding build_observation write_phase
  length-build_observation o p h =
      let q = write_joints o (write_base o p) in
      length-set (set q 45 o.sin_phase) 46 o.cos_phase
      ∙ length-set q 45 o.sin_phase
      ∙ length-write_joints o (write_base o p)
      ∙ length-write_base o p h

  module _ (o : ObsInput F) (twelve : o.num_joints ≡ 12) (p : List F) (size : 47 ≤ length p) where
    abbrev z : F
    z = lit 0 0

    pub joints_below : (j : ℕ) → j < 9 → get_or (write_joints o p) j z ≡ get_or p j z
    unfolding write_joints
    joints_below j h =
        let n = o.num_joints in
        let p₁ = write_range 9 n (position_term o) p in
        let p₂ = write_range 21 n (velocity_term o) p₁ in
        get_or-write_range_below 33 n (action_term o) p₂ j z (omega arith)
        ∙ get_or-write_range_below 21 n (velocity_term o) p₁ j z (omega arith)
        ∙ get_or-write_range_below 9 n (position_term o) p j z (omega arith)

    pub joints_positions :
        (i : ℕ) → i < 12 → get_or (write_joints o p) (9 + i) z ≡ position_term o i
    unfolding write_joints
    joints_positions i h =
        let n = o.num_joints in
        let p₁ = write_range 9 n (position_term o) p in
        let p₂ = write_range 21 n (velocity_term o) p₁ in
        get_or-write_range_below 33 n (action_term o) p₂ (9 + i) z (omega arith)
        ∙ get_or-write_range_below 21 n (velocity_term o) p₁ (9 + i) z (omega arith)
        ∙ get_or-write_range 9 n (position_term o) p i z (omega arith) (omega arith)

    pub joints_velocities :
        (i : ℕ) → i < 12 → get_or (write_joints o p) (21 + i) z ≡ velocity_term o i
    unfolding write_joints
    joints_velocities i h =
        let n = o.num_joints in
        let p₁ = write_range 9 n (position_term o) p in
        let p₂ = write_range 21 n (velocity_term o) p₁ in
        get_or-write_range_below 33 n (action_term o) p₂ (21 + i) z (omega arith)
        ∙ get_or-write_range 21 n (velocity_term o) p₁ i z (omega arith)
            (omega (arith, length-write_range 9 n (position_term o) p))

    pub joints_actions : (i : ℕ) → i < 12 → get_or (write_joints o p) (33 + i) z ≡ action_term o i
    unfolding write_joints
    joints_actions i h =
        let n = o.num_joints in
        let p₁ = write_range 9 n (position_term o) p in
        let p₂ = write_range 21 n (velocity_term o) p₁ in
        get_or-write_range 33 n (action_term o) p₂ i z (omega arith) (
          omega (
            arith,
            length-write_range 9 n (position_term o) p,
            length-write_range 21 n (velocity_term o) p₁,
          ))

  pub phase_below :
      (o : ObsInput F) (q : List F) (j : ℕ)
      → j < 45
      → get_or (write_phase o q) j (lit 0 0) ≡ get_or q j (lit 0 0)
  unfolding write_phase
  phase_below o q j h =
      get_or-set_ne (set q 45 o.sin_phase) 46 j o.cos_phase (lit 0 0) (omega arith)
      ∙ get_or-set_ne q 45 j o.sin_phase (lit 0 0) (omega arith)

  pub phase_ends :
      (o : ObsInput F) (q : List F)
      → 47 ≤ length q
      → (get_or (write_phase o q) 45 (lit 0 0) ≡ o.sin_phase)
        × (get_or (write_phase o q) 46 (lit 0 0) ≡ o.cos_phase)
  unfolding write_phase
  phase_ends o q h = (
    get_or-set_ne (set q 45 o.sin_phase) 46 45 o.cos_phase (lit 0 0) (omega arith)
        ∙ get_or-set_self q 45 o.sin_phase (lit 0 0) (omega arith),
    get_or-set_self (set q 45 o.sin_phase) 46 o.cos_phase (lit 0 0)
        (omega (arith, length-set q 45 o.sin_phase)),
  )
