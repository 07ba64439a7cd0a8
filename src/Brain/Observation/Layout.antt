-- ===== src/Brain/Observation/Layout.antt =====
-- The observation vector is laid out as documented above `BuildObservation`.
use mathlib.Core.Path.{subst}
use native.Mathlib.Decide.{dec_lt}
use robot_brain.Base.{
  ℕ, ◌+◌, ◌≤◌, ◌<◌, ◌≡◌, sym, ap, ◌∙◌, lt→ltb, not_lt→ltb, List, ◌-◌, arith, length, get_or,
  get_or-append_left, ext_get_or,
}
use robot_brain.Float.{Float}
use robot_brain.Brain.Observation.{
  ObsInput, position_term, velocity_term, action_term, write_base, write_joints, write_phase,
  build_observation, base_terms, layout,
}
use robot_brain.Brain.Observation.Writes.{
  write_base_lem, length-write_base, length-write_joints, joints_below, joints_positions,
  joints_velocities, joints_actions, phase_below, phase_ends, length-build_observation,
}

module _ {F : Type 0} ⦃f : Float F⦄ where
  open f use {lit, mul, sub}

  module _ (o : ObsInput F) (p : List F) (twelve : o.num_joints ≡ 12) (size : 47 ≤ length p) where
    abbrev base : List F
    base = write_base o p

    abbrev joints : List F
    joints = write_joints o base

    base_size : 47 ≤ length base
    base_size = omega (arith, length-write_base o p (omega arith))

    at_base :
        (j : ℕ)
        → j < 9
        → get_or (write_phase o joints) j (lit 0 0) ≡ get_or (base_terms o) j (lit 0 0)
    at_base j h =
        let (rest, e) = write_base_lem o p (omega arith) in
        phase_below o joints j (omega arith)
        ∙ joints_below o twelve base base_size j h
        ∙ ap (λ x. get_or x j (lit 0 0)) e
        ∙ get_or-append_left (base_terms o) rest j (lit 0 0) h

    at_positions :
        (i : ℕ) → i < 12 → get_or (write_phase o joints) (9 + i) (lit 0 0) ≡ position_term o i
    at_positions i h =
        phase_below o joints (9 + i) (omega arith) ∙ joints_positions o twelve base base_size i h

    at_velocities :
        (i : ℕ) → i < 12 → get_or (write_phase o joints) (21 + i) (lit 0 0) ≡ velocity_term o i
    at_velocities i h =
        phase_below o joints (21 + i) (omega arith) ∙ joints_velocities o twelve base base_size i h

    at_actions :
        (i : ℕ) → i < 12 → get_or (write_phase o joints) (33 + i) (lit 0 0) ≡ action_term o i
    at_actions i h =
        phase_below o joints (33 + i) (omega arith) ∙ joints_actions o twelve base base_size i h

    at_ends :
        (get_or (write_phase o joints) 45 (lit 0 0) ≡ o.sin_phase)
        × (get_or (write_phase o joints) 46 (lit 0 0) ≡ o.cos_phase)
    at_ends = phase_ends o joints (omega (arith, base_size, length-write_joints o base))

    -- The entry at `j`, by the segment that holds it.
    at_index : (j : ℕ) → j < 47 → get_or (write_phase o joints) j (lit 0 0) ≡ layout o j
    at_index j h = elim (dec_lt j 9) [
      | yes a ↦ rw (lt→ltb j 9 a) (at_base j a)
      | no a ↦ elim (dec_lt j 21) [
        | yes b ↦
            rw (not_lt→ltb j 9 a, lt→ltb j 21 b)
              (subst (λ k. get_or (write_phase o joints) k (lit 0 0) ≡ position_term o (j - 9))
                (sym (split 9 a)) (at_positions (j - 9) (omega arith)))
        | no b ↦ elim (dec_lt j 33) [
          | yes c ↦
              rw (not_lt→ltb j 9 a, not_lt→ltb j 21 b, lt→ltb j 33 c)
                (subst (λ k. get_or (write_phase o joints) k (lit 0 0) ≡ velocity_term o (j - 21))
                  (sym (split 21 b)) (at_velocities (j - 21) (omega arith)))
          | no c ↦ elim (dec_lt j 45) [
            | yes e ↦
                rw (not_lt→ltb j 9 a, not_lt→ltb j 21 b, not_lt→ltb j 33 c, lt→ltb j 45 e)
                  (subst (λ k. get_or (write_phase o joints) k (lit 0 0) ≡ action_term o (j - 33))
                    (sym (split 33 c)) (at_actions (j - 33) (omega arith)))
            | no e ↦ ends e
          ]
        ]
      ]
    ]
      where
        split : (k : ℕ) → ¬ (j < k) → j ≡ k + (j - k)
        split k a = omega arith

        ends : ¬ (j < 45) → get_or (write_phase o joints) j (lit 0 0) ≡ layout o j
        ends e = elim (dec_lt j 46) [
          | yes g ↦ let q : j ≡ 45 = omega arith in rw q at_ends.0
          | no g ↦ let q : j ≡ 46 = omega arith in rw q at_ends.1
        ]

  -- With 12 joints and a buffer of at least 47 floats, each of the first 47 entries is what the
  -- layout says, whatever the buffer held before, and the buffer keeps its length.
  pub build_observation-layout :
      (o : ObsInput F) (p : List F) (j : ℕ)
      → o.num_joints ≡ 12
      → 47 ≤ length p
      → j < 47
      → (get_or (build_observation o p) j (lit 0 0) ≡ layout o j)
        × (length (build_observation o p) ≡ length p)
  unfolding build_observation
  build_observation-layout o p j twelve size h =
      (at_index o p twelve size j h, length-build_observation o p (omega arith))

  -- With 12 joints and buffers of 47 floats, the observation does not depend on what the buffer held
  -- before.
  pub build_observation_fresh :
      (o : ObsInput F) (p q : List F)
      → o.num_joints ≡ 12
      → length p ≡ 47
      → length q ≡ 47
      → build_observation o p ≡ build_observation o q
  build_observation_fresh o p q twelve sp sq =
      ext_get_or (build_observation o p) (build_observation o q) (lit 0 0)
        (omega (
          arith,
          length-build_observation o p (omega arith),
          length-build_observation o q (omega arith),
        ))
        λ j h.
          let k : j < 47 = omega (arith, length-build_observation o p (omega arith)) in
          (build_observation-layout o p j twelve (omega arith) k).0
          ∙ sym (build_observation-layout o q j twelve (omega arith) k).0
