-- ===== src/Float/Order.antt =====
-- Consequences of the IEEE 754 laws that the components share.
use robot_brain.Base.{◌≡◌, ◌⊎◌, inl, inr, true, false, arith, if◌then◌else◌}
use robot_brain.Float.{Float, IsIeee, ◌≼◌, Num, Finite}

module _ {F : Type 0} ⦃f : Float F⦄ where
  open f use {lit, add, sub, neg, abs, copysign, lt, le, is_nan, is_inf}

  -- `std::clamp(v, lo, hi)`
  unfoldable pub clamp : F → F → F → F
  clamp v lo hi = if lt v lo then lo else if lt hi v then hi else v

  -- A value that moves from `last` to `target` by at most `step`:
  -- `|target - last| > step ? last + copysign(step, target - last) : target`.
  unfoldable pub approach : F → F → F → F
  approach last target step =
      let delta = sub target last in
      if lt step (abs delta) then add last (copysign step delta) else target

  module _ (laws : IsIeee F) where
    open laws use {
      le_refl, le_trans, le_num, lt-eq-not-le, lt_num, le-add, add-neg-le, add_le_of_lt_sub,
      le_add_of_sub_lt, abs_finite, abs_nonneg, abs_le, neg_anti, neg_nonpos, lt_abs, copysign_pos,
      copysign_neg,
    }

    pub lt_of_lt_le : (x y z : F) → lt x y ≡ true → y ≼ z → lt x z ≡ true
    lt_of_lt_le x y z p q =
        ground
          (arith, lt_num x y p, le_num y z q, lt-eq-not-le x y, lt-eq-not-le x z, le_trans y z x q)

    pub lt_of_le_lt : (x y z : F) → x ≼ y → lt y z ≡ true → lt x z ≡ true
    lt_of_le_lt x y z p q =
        ground
          (arith, le_num x y p, lt_num y z q, lt-eq-not-le y z, lt-eq-not-le x z, le_trans z x y)

    pub le_of_not_lt : (x y : F) → Num x → Num y → lt x y ≡ false → y ≼ x
    le_of_not_lt x y nx ny h = ground (arith, lt-eq-not-le x y nx ny)

    pub clamp_bounds : (v lo hi : F) → Num v → lo ≼ hi → (lo ≼ clamp v lo hi) × (clamp v lo hi ≼ hi)
    unfolding clamp
    clamp_bounds v lo hi n h =
        ground (arith, le_num lo hi h, le_refl lo, le_refl hi, lt-eq-not-le v lo, lt-eq-not-le hi v)

    -- Beyond the step, the sign of the difference decides where the new value lies.
    approach_far :
        (last target step : F)
        → Num last
        → Finite step
        → lit 0 0 ≼ step
        → lt step (abs (sub target last)) ≡ true
        → let v = add last (copysign step (sub target last)) in
          ((last ≼ v) × (v ≼ target)) ⊎ ((target ≼ v) × (v ≼ last))
    approach_far last target step nl fs s far = elim (lt_abs step (sub target last) s far) [
      | inl up ↦
          let a = abs_finite step fs in
          let z = abs_nonneg step fs.0 in
          let e = copysign_pos step (sub target last) (lt_of_le_lt _ _ _ s up) in
          rw e (
            inl (
              le-add last (abs step) nl a z,
              add_le_of_lt_sub target last (abs step) z (lt_of_le_lt _ _ _ (abs_le step s) up),
            ))
      | inr down ↦
          let a = abs_finite step fs in
          let z = abs_nonneg step fs.0 in
          let e =
            copysign_neg step (sub target last) (lt_of_lt_le _ _ _ down (neg_nonpos step s)) in
          rw e (
            inr (
              le_add_of_sub_lt target last (abs step) z
                  (lt_of_lt_le _ _ _ down (neg_anti _ _ (abs_le step s))),
              add-neg-le last (abs step) nl a z,
            ))
    ]

    -- A step never leaves an interval that holds both ends: it does not overshoot.
    pub approach_within :
        (last target step lo hi : F)
        → Finite step
        → lit 0 0 ≼ step
        → (lo ≼ last) × (last ≼ hi)
        → (lo ≼ target) × (target ≼ hi)
        → (lo ≼ approach last target step) × (approach last target step ≼ hi)
    unfolding approach
    approach_within last target step lo hi fs s l t =
        let v = add last (copysign step (sub target last)) in
        ground (
          arith,
          le_num lo last l.0,
          approach_far last target step,
          le_trans lo last v,
          le_trans v target hi,
          le_trans lo target v,
          le_trans v last hi,
        )
