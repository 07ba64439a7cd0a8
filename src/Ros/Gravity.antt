-- ===== src/Ros/Gravity.antt =====
-- `QuaternionToProjectedGravity` against the rotation of the direction of gravity into the frame of the
-- body, as quaternions define it.
use robot_brain.Base.{◌≡◌, sym, ap, ◌∙◌}
use mathlib.Core.Path.{◌≡⟨◌⟩◌, ◌∎}
use robot_brain.Base.Vec3.{Vec3, vec3}
use robot_brain.Float.{Float, Convert}
use robot_brain.Float.Exact.{IsExact, add_interchange, cancel}
use robot_brain.Ros.{
  RosNode, Imu, Quaternion, projected_gravity_of, narrow_quaternion, imu_callback,
}

module _ {F : Type 0} ⦃f : Float F⦄ where
  open f use {lit, add, sub, mul, neg}

  -- Hamilton's product.
  unfoldable pub hamilton : Quaternion F → Quaternion F → Quaternion F
  hamilton a b = record {
    w = sub (sub (sub (mul a.w b.w) (mul a.x b.x)) (mul a.y b.y)) (mul a.z b.z);
    x = sub (add (add (mul a.w b.x) (mul a.x b.w)) (mul a.y b.z)) (mul a.z b.y);
    y = add (add (sub (mul a.w b.y) (mul a.x b.z)) (mul a.y b.w)) (mul a.z b.x);
    z = add (sub (add (mul a.w b.z) (mul a.x b.y)) (mul a.y b.x)) (mul a.z b.w);
  }

  abbrev pub conjugate : Quaternion F → Quaternion F
  conjugate q = record { w = q.w; x = neg q.x; y = neg q.y; z = neg q.z }

  -- A vector as a quaternion without a real part, and back.
  abbrev pub pure : Vec3 F → Quaternion F
  pure v = record { w = lit 0 0; x = v.v0; y = v.v1; z = v.v2 }

  abbrev pub imaginary : Quaternion F → Vec3 F
  imaginary q = vec3 q.x q.y q.z

  -- A vector of the world, seen from a body that is turned by `q`.
  unfoldable pub to_body : Quaternion F → Vec3 F → Vec3 F
  unfolding hamilton
  to_body q v = imaginary (hamilton (conjugate q) (hamilton (pure v) q))

  -- The direction of gravity in the world: down.
  abbrev pub down : Vec3 F
  down = vec3 (lit 0 0) (lit 0 0) (neg (lit 10 1))

  abbrev pub squared_norm : Quaternion F → F
  squared_norm q = add (add (mul q.w q.w) (add (mul q.x q.x) (mul q.y q.y))) (mul q.z q.z)

  module _ (e : IsExact F) where
    -- The product of down and `q`.
    hamilton-down :
        (q : Quaternion F)
        → hamilton (pure down) q ≡ record { w = q.z; x = q.y; y = neg q.x; z = neg q.w }
    unfolding hamilton
    hamilton-down q =
        simp (e.sub_lem, e.zero-mul, e.neg-mul, e.one-mul, e.neg-zero, e.zero-add, e.neg-neg)

    -- Each component of the rotated direction, in terms of the products that the code forms.
    along_x :
        (q : Quaternion F) → (to_body q down).v0 ≡ mul (lit 20 1) (sub (mul q.w q.y) (mul q.x q.z))
    unfolding to_body hamilton
    along_x q =
        ap (λ p. (hamilton (conjugate q) p).x) (hamilton-down q)
        ∙ simp (
          e.sub_lem,
          e.neg-mul,
          e.mul-neg,
          e.neg-neg,
          e.two-mul,
          e.mul_comm q.y q.w,
          e.mul_comm q.z q.x,
          e.add_assoc,
        )

    along_y :
        (q : Quaternion F)
        → (to_body q down).v1 ≡ mul (neg (lit 20 1)) (add (mul q.w q.x) (mul q.y q.z))
    unfolding to_body hamilton
    along_y q =
        let p = neg (mul q.w q.x) in
        let r = neg (mul q.y q.z) in
        (to_body q down).v1
        ≡⟨ ap (λ p. (hamilton (conjugate q) p).y) (hamilton-down q) ⟩
          (hamilton (conjugate q) (record { w = q.z; x = q.y; y = neg q.x; z = neg q.w })).y
        ≡⟨ (simp
            (e.sub_lem, e.neg-mul, e.mul-neg, e.neg-neg, e.mul_comm q.x q.w, e.mul_comm q.z q.y)) ⟩
          add (add (add p p) r) r
        ≡⟨ e.add_assoc (add p p) r r ⟩ add (add p p) (add r r)
        ≡⟨ add_interchange e p p r r ⟩ add (add p r) (add p r)
        ≡⟨ (simp (e.neg-mul, e.two-mul, e.neg-add)) ⟩
          mul (neg (lit 20 1)) (add (mul q.w q.x) (mul q.y q.z)) ∎

    along_z :
        (q : Quaternion F)
        → squared_norm q ≡ lit 10 1
        → (to_body q down).v2 ≡ sub (mul (lit 20 1) (add (mul q.x q.x) (mul q.y q.y))) (lit 10 1)
    unfolding to_body hamilton
    along_z q unit =
        let s = add (mul q.x q.x) (mul q.y q.y) in
        let ww = mul q.w q.w in
        let zz = mul q.z q.z in
        (to_body q down).v2
        ≡⟨ ap (λ p. (hamilton (conjugate q) p).z) (hamilton-down q) ⟩
          (hamilton (conjugate q) (record { w = q.z; x = q.y; y = neg q.x; z = neg q.w })).z
        ≡⟨ (simp (e.sub_lem, e.neg-mul, e.mul-neg, e.neg-neg, e.add_assoc)) ⟩
          add (add (neg ww) s) (neg zz)
        ≡⟨ sym (cancel e s ww zz) ⟩ add (add s s) (neg (add (add ww s) zz))
        ≡⟨ ap (λ one. add (add s s) (neg one)) unit ⟩ add (add s s) (neg (lit 10 1))
        ≡⟨ (simp (e.sub_lem, e.two-mul)) ⟩ sub (mul (lit 20 1) s) (lit 10 1) ∎

    -- The same for the function by itself.
    pub projected_gravity_of_lem :
        (q : Quaternion F) → squared_norm q ≡ lit 10 1 → projected_gravity_of q ≡ to_body q down
    unfolding projected_gravity_of
    projected_gravity_of_lem q unit = sym (λ i. vec3 (along_x q i) (along_y q i) (along_z q unit i))

module _ {F D : Type 0} ⦃f : Float F⦄ ⦃d : Float D⦄ ⦃c : Convert F D⦄ (e : IsExact F) where
  -- In arithmetic without rounding, after an IMU message whose orientation is a unit quaternion the node
  -- holds the direction of gravity, down in the world, as it is seen from the body in that orientation:
  -- what the conjugation by the quaternion makes of it.
  pub imu_callback-gravity :
      (msg : Imu D) (r : RosNode F D)
      → squared_norm (narrow_quaternion msg.orientation) ≡ f.lit 10 1
      → (imu_callback msg r).latest_gravity ≡ to_body (narrow_quaternion msg.orientation) down
  unfolding imu_callback
  imu_callback-gravity msg r unit =
      projected_gravity_of_lem e (narrow_quaternion msg.orientation) unit
