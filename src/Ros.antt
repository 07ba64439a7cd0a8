-- ===== src/Ros.antt =====
-- src/RobotBrain/src/core/ros_node.cpp: the sensor cache and the command publisher of `RosNode`.
-- Topics, QoS and executors belong to ROS; each function here is one callback or one call, which
-- holds the mutex of the cache.
pub mod Cache
pub mod Gravity
use robot_brain.Base.{
  ℕ, Bool, true, false, ◌&&◌, List, [], ◌∷◌, map, ltb, if◌then◌else◌, length, get_or, replicate,
  for_below,
}
use robot_brain.Base.Vec3.{Vec3, vec3, map_vec3}
use robot_brain.Float.{Float, Convert}
use robot_brain.Jitter.{JitterStats}
use robot_brain.Jitter

pub record Proprioception (F : Type 0) : Type 0 where
  pub joint_positions : List F
  pub joint_velocities : List F
  pub angular_velocity : Vec3 F
  pub projected_gravity : Vec3 F
  pub valid : Bool

-- The parts of `sensor_msgs` that the callbacks read.
pub record JointState (D : Type 0) : Type 0 where
  pub position : List D
  pub velocity : List D

pub record Quaternion (A : Type 0) : Type 0 where
  pub w : A
  pub x : A
  pub y : A
  pub z : A

pub record Imu (D : Type 0) : Type 0 where
  pub angular_velocity : Vec3 D
  pub orientation : Quaternion D

pub record RosNode (F D : Type 0) : Type 0 where
  pub num_joints : ℕ
  pub latest_joint_positions : List F
  pub latest_joint_velocities : List F
  pub latest_ang_vel : Vec3 F
  pub latest_gravity : Vec3 F
  pub has_joint_state : Bool
  pub has_imu : Bool
  pub last_joint_targets : List F
  -- What went out on the command topic, the latest message first.
  pub published : List (List D)
  pub jitter_stats : JitterStats D

module _ {F : Type 0} ⦃f : Float F⦄ where
  open f use {lit, add, sub, mul, neg}

  -- `QuaternionToProjectedGravity`
  unfoldable pub projected_gravity_of : Quaternion F → Vec3 F
  projected_gravity_of q =
      let two = lit 20 1 in
      vec3 (mul two (sub (mul q.w q.y) (mul q.x q.z)))
        (mul (neg two) (add (mul q.w q.x) (mul q.y q.z)))
        (sub (mul two (add (mul q.x q.x) (mul q.y q.y))) (lit 10 1))

module _ {F D : Type 0} where
  abbrev pub get_last_joint_targets : RosNode F D → List F
  get_last_joint_targets r = r.last_joint_targets

module _ {F D : Type 0} ⦃f : Float F⦄ ⦃d : Float D⦄ where
  unfoldable pub new_ros_node : ℕ → RosNode F D
  new_ros_node num_joints = record {
    num_joints = num_joints;
    latest_joint_positions = replicate num_joints (f.lit 0 0);
    latest_joint_velocities = replicate num_joints (f.lit 0 0);
    latest_ang_vel = vec3 (f.lit 0 0) (f.lit 0 0) (f.lit 0 0);
    latest_gravity = vec3 (f.lit 0 0) (f.lit 0 0) (f.neg (f.lit 1 0));
    has_joint_state = false;
    has_imu = false;
    last_joint_targets = replicate num_joints (f.lit 0 0);
    published = [];
    jitter_stats = Jitter.init;
  }

-- How many joints the callback takes from a message.
unfoldable pub joints_taken : {D : Type 0} → ℕ → JointState D → ℕ
joints_taken num_joints msg =
    let n = length msg.position in
    let n₁ = if ltb (length msg.velocity) n then length msg.velocity else n in
    if ltb num_joints n₁ then num_joints else n₁

module _ {F D : Type 0} where
  unfoldable pub get_latest_proprioception : RosNode F D → Proprioception F
  get_latest_proprioception r = record {
    joint_positions = r.latest_joint_positions;
    joint_velocities = r.latest_joint_velocities;
    angular_velocity = r.latest_ang_vel;
    projected_gravity = r.latest_gravity;
    valid = r.has_joint_state && r.has_imu;
  }

module _ {F D : Type 0} ⦃f : Float F⦄ ⦃d : Float D⦄ ⦃c : Convert F D⦄ where
  unfoldable pub joint_state_callback : JointState D → RosNode F D → RosNode F D
  unfolding joints_taken
  joint_state_callback msg r =
      let n = joints_taken r.num_joints msg in
      record r {
        latest_joint_positions =
            for_below n (λ i old. c.narrow (get_or msg.position i (d.lit 0 0)))
              r.latest_joint_positions;
        latest_joint_velocities =
            for_below n (λ i old. c.narrow (get_or msg.velocity i (d.lit 0 0)))
              r.latest_joint_velocities;
        has_joint_state = true;
      }

  unfoldable pub narrow_quaternion : Quaternion D → Quaternion F
  narrow_quaternion q = record {
    w = c.narrow q.w;
    x = c.narrow q.x;
    y = c.narrow q.y;
    z = c.narrow q.z;
  }

  unfoldable pub imu_callback : Imu D → RosNode F D → RosNode F D
  imu_callback msg r = record r {
    latest_ang_vel = map_vec3 c.narrow msg.angular_velocity;
    latest_gravity = projected_gravity_of (narrow_quaternion msg.orientation);
    has_imu = true;
  }

  -- The publication and the assignment of `last_joint_targets_` after it, without a lock, are one step.
  unfoldable pub publish_joint_command : List F → RosNode F D → RosNode F D
  publish_joint_command targets r = record r {
    published = map c.widen targets ∷ r.published;
    last_joint_targets = targets;
  }
