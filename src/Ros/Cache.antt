-- ===== src/Ros/Cache.antt =====
-- The sensor cache after any sequence of messages.
use robot_brain.Base.{
  ℕ, ◌≡◌, refl, Bool, true, false, ◌&&◌, List, [], ◌∷◌, arith, length, get_or, length-for_below,
  lt→ltb, not_lt→ltb, ltb, if◌then◌else◌, get_or-for_below, get_or-for_below_above,
  length-replicate, min,
}
use mathlib.Core.Path.{ap₂}
use native.Mathlib.Decide.{dec_lt}
use robot_brain.Float.{Float, Convert}
use robot_brain.Ros.{
  RosNode, JointState, Imu, new_ros_node, get_latest_proprioception, joints_taken,
  joint_state_callback, imu_callback,
}

pub data Message (D : Type 0) : Type 0 where
  joint_state : JointState D → Message D
  imu : Imu D → Message D

module _ {D : Type 0} where
  abbrev pub has_joint_state : List (Message D) → Bool
  has_joint_state [] = false
  has_joint_state (joint_state m ∷ ms) = true
  has_joint_state (imu m ∷ ms) = has_joint_state ms

  abbrev pub has_imu : List (Message D) → Bool
  has_imu [] = false
  has_imu (joint_state m ∷ ms) = has_imu ms
  has_imu (imu m ∷ ms) = true

joints_taken-min :
    {D : Type 0} (n : ℕ) (m : JointState D)
    → joints_taken n m ≡ min (min (length m.position) (length m.velocity)) n
unfolding joints_taken
joints_taken-min n m = ground arith

module _ {F D : Type 0} ⦃f : Float F⦄ ⦃d : Float D⦄ ⦃c : Convert F D⦄ where
  unfoldable pub receive : Message D → RosNode F D → RosNode F D
  unfolding joint_state_callback imu_callback
  receive (joint_state m) r = joint_state_callback m r
  receive (imu m) r = imu_callback m r

  -- The messages of a run, the latest first.
  unfoldable pub receive_all : List (Message D) → RosNode F D → RosNode F D
  unfolding receive
  receive_all [] r = r
  receive_all (m ∷ ms) r = receive m (receive_all ms r)

  pub record IsSized (n : ℕ) (r : RosNode F D) : Type 0 where
    pub joints : r.num_joints ≡ n
    pub positions : length r.latest_joint_positions ≡ n
    pub velocities : length r.latest_joint_velocities ≡ n

  pub joint_state-IsSized :
      {n : ℕ} (m : JointState D) (r : RosNode F D)
      → IsSized n r
      → IsSized n (joint_state_callback m r)
  unfolding joint_state_callback
  joint_state-IsSized m r v = record {
    joints = v.joints;
    positions = omega (
      arith,
      v.positions,
      length-for_below (joints_taken r.num_joints m)
          (λ i old. c.narrow (get_or m.position i (d.lit 0 0))) r.latest_joint_positions,
    );
    velocities = omega (
      arith,
      v.velocities,
      length-for_below (joints_taken r.num_joints m)
          (λ i old. c.narrow (get_or m.velocity i (d.lit 0 0))) r.latest_joint_velocities,
    );
  }

  pub imu-IsSized :
      {n : ℕ} (m : Imu D) (r : RosNode F D) → IsSized n r → IsSized n (imu_callback m r)
  unfolding imu_callback
  imu-IsSized m r v = record {
    joints = v.joints;
    positions = v.positions;
    velocities = v.velocities;
  }

  receive-IsSized :
      {n : ℕ} (m : Message D) (r : RosNode F D) → IsSized n r → IsSized n (receive m r)
  unfolding receive
  receive-IsSized (joint_state m) r v = joint_state-IsSized m r v
  receive-IsSized (imu m) r v = imu-IsSized m r v

  receive_all-IsSized :
      {n : ℕ} (ms : List (Message D)) (r : RosNode F D) → IsSized n r → IsSized n (receive_all ms r)
  unfolding receive_all
  receive_all-IsSized [] r v = v
  receive_all-IsSized (m ∷ ms) r v =
      receive-IsSized m (receive_all ms r) (receive_all-IsSized ms r v)

  pub new-IsSized : (n : ℕ) → IsSized n (new_ros_node n)
  unfolding new_ros_node
  new-IsSized n = record {
    joints = refl;
    positions = length-replicate n (f.lit 0 0);
    velocities = length-replicate n (f.lit 0 0);
  }

  receive_all-flags :
      (ms : List (Message D)) (r : RosNode F D)
      → r.has_joint_state ≡ false
      → r.has_imu ≡ false
      → ((receive_all ms r).has_joint_state ≡ has_joint_state ms)
        × ((receive_all ms r).has_imu ≡ has_imu ms)
  unfolding receive_all joint_state_callback imu_callback
  receive_all-flags [] r j i = (j, i)
  receive_all-flags (joint_state m ∷ ms) r j i = (refl, (receive_all-flags ms r j i).1)
  receive_all-flags (imu m ∷ ms) r j i = ((receive_all-flags ms r j i).0, refl)

  -- After any messages the cached vectors have one entry for each joint, and the readings count as
  -- valid exactly when a joint state and an IMU message have both arrived.
  pub receive_all_lem :
      (n : ℕ) (ms : List (Message D))
      → let r = receive_all ms (new_ros_node n) in
        IsSized n r × ((get_latest_proprioception r).valid ≡ (has_joint_state ms && has_imu ms))
  unfolding get_latest_proprioception
  receive_all_lem n ms =
      let (joints, imus) = receive_all-flags ms (new_ros_node n) (fresh n).0 (fresh n).1 in
      (receive_all-IsSized ms (new_ros_node n) (new-IsSized n), ap₂ ◌&&◌ joints imus)
    where
      fresh :
          (n : ℕ)
          → ((new_ros_node {F = F} {D = D} n).has_joint_state ≡ false)
            × ((new_ros_node {F = F} {D = D} n).has_imu ≡ false)
      fresh n = unfold new_ros_node in (refl, refl)

  -- After a joint state, the cached position and velocity of joint `i` are its entries of the message
  -- where the joint is in both vectors of the message and in the robot, and those of before elsewhere.
  pub joint_state_callback_lem :
      (m : JointState D) (r : RosNode F D) (i : ℕ) (z : F)
      → IsSized r.num_joints r
      → let q = joint_state_callback m r in
        let known = ltb i (min (min (length m.position) (length m.velocity)) r.num_joints) in
        (get_or q.latest_joint_positions i z ≡ (
          if known
          then c.narrow (get_or m.position i (d.lit 0 0))
          else get_or r.latest_joint_positions i z))
        × (get_or q.latest_joint_velocities i z ≡ (
            if known
            then c.narrow (get_or m.velocity i (d.lit 0 0))
            else get_or r.latest_joint_velocities i z))
  unfolding joint_state_callback
  joint_state_callback_lem m r i z v =
      let t = joints_taken r.num_joints m in
      let e = joints_taken-min r.num_joints m in
      let p = λ (k : ℕ) (old : F). c.narrow (get_or m.position k (d.lit 0 0)) in
      let q = λ (k : ℕ) (old : F). c.narrow (get_or m.velocity k (d.lit 0 0)) in
      elim (dec_lt i (min (min (length m.position) (length m.velocity)) r.num_joints)) [
        | yes h ↦ rw (lt→ltb _ _ h) (
          get_or-for_below t p r.latest_joint_positions i z (omega (arith, e))
              (omega (arith, v.positions)),
          get_or-for_below t q r.latest_joint_velocities i z (omega (arith, e))
              (omega (arith, v.velocities)),
        )
        | no h ↦ rw (not_lt→ltb _ _ h) (
          get_or-for_below_above t p r.latest_joint_positions i z (omega (arith, e)),
          get_or-for_below_above t q r.latest_joint_velocities i z (omega (arith, e)),
        )
      ]
