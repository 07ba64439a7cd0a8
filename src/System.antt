-- ===== src/System.antt =====
-- The threads of RobotBrain as interleaved steps on one state: the control thread (one tick is one
-- step, after one for its wake-up), the gRPC thread (one task), the ROS callbacks (one message each),
-- and the inference worker, whose task is cut where other threads are seen to come in between.
pub mod Ticks
pub mod Invariant
pub mod Safety
pub mod Preemption
pub mod Overtaking
pub mod Delays
pub mod Frames
pub mod Spec
pub mod Fine
pub mod Progress
pub mod Liveness
pub mod Buffers
use robot_brain.Base.{◌^◌, ◌<◌, Bool, ℕ, zero, suc, ◌≡◌, List, [], ◌∷◌, length, get_or}
use robot_brain.Float.{Float, Convert}
use robot_brain.Ros.{RosNode, new_ros_node}
use robot_brain.Ros.Cache.{Message, receive}
use robot_brain.ThreadPool.{
  ThreadPool, Worker, waiting, running, returned, value, create, take, finish,
}
use robot_brain.Jitter.{update_jitter}
use robot_brain.Timer.{Timespec, total_ns, jitter_ms, set_scheduling}
use robot_brain.Brain.{AiBrain, BrainConfig, Job, Machine, PolicyModel, new_brain}
use robot_brain.Brain.Tasks.{Task, process_robot_task}
use robot_brain.Brain.Control.{control_loop_step}
use robot_brain.Brain.Inference.{
  Stage, begun, computed, admitted, over, released, compute, check_generation, commit, release_flag,
}

pub record World (F D H : Type 0) : Type 0 where
  pub machine : Machine F D H
  -- Where the task of the worker stands; `begun` while it waits.
  pub stage : Stage F

module _ {F D H : Type 0} where
  -- The one worker of the inference pool.
  abbrev pub worker : World F D H → Worker (Job F)
  worker w = get_or w.machine.pool.workers 0 returned

  abbrev pub with_brain : World F D H → AiBrain F D H → World F D H
  with_brain w b = record w { machine = record w.machine { brain = b } }

  abbrev pub with_ros : World F D H → RosNode F D → World F D H
  with_ros w r = record w { machine = record w.machine { ros = r } }

  abbrev pub with_pool : World F D H → ThreadPool (Job F) → World F D H
  with_pool w p = record w { machine = record w.machine { pool = p } }

module _ {F D H : Type 0} ⦃f : Float F⦄ ⦃d : Float D⦄ ⦃c : Convert F D⦄ where
  -- After the constructors: the pool has one worker and room for ten tasks.
  unfoldable pub boot : BrainConfig F → H → ℕ → World F D H
  boot cfg hidden now = record {
    machine = record {
      brain = new_brain cfg hidden now;
      ros = new_ros_node cfg.num_joints;
      pool = create 1 10;
    };
    stage = begun;
  }

  unfoldable pub assign : PolicyModel F H → ℕ → Task F → World F D H → World F D H
  assign policy now t w =
      let (b, r) = process_robot_task policy now t w.machine.brain w.machine.ros in
      with_ros (with_brain w b) r

  unfoldable pub tick : PolicyModel F H → ℕ → World F D H → World F D H
  tick policy now w = record w { machine = control_loop_step policy now w.machine }

  unfoldable pub sense : Message D → World F D H → World F D H
  sense msg w = with_ros w (receive msg w.machine.ros)

  -- The real-time thread on start: whether it got its scheduling class.
  unfoldable pub start_rt : Bool → World F D H → World F D H
  start_rt fifo_ok w =
      let r = w.machine.ros in
      with_ros w (record r { jitter_stats = set_scheduling fifo_ok r.jitter_stats })

  -- The real-time thread after its sleep: it was to wake at `planned` and woke at `now`.
  unfoldable pub wake : Timespec → Timespec → World F D H → World F D H
  wake now planned w =
      let r = w.machine.ros in
      with_ros w (record r { jitter_stats = update_jitter (jitter_ms now planned) r.jitter_stats })

  unfoldable pub fetch : World F D H → World F D H
  fetch w = with_pool w (take 0 w.machine.pool)

  unfoldable pub run_compute : PolicyModel F H → Job F → List F → World F D H → World F D H
  run_compute policy job buffer w =
      let (b, s) = compute policy job buffer w.machine.brain in
      record (with_brain w b) { stage = s }

  unfoldable pub run_check : Job F → List F → List F → World F D H → World F D H
  run_check job targets actions w =
      let (b, s) = check_generation job targets actions w.machine.brain in
      record (with_brain w b) { stage = s }

  unfoldable pub run_commit : ℕ → List F → List F → World F D H → World F D H
  run_commit now targets actions w =
      let (b, r) = commit now targets actions w.machine.brain w.machine.ros in
      record (with_ros (with_brain w b) r) { stage = over }

  unfoldable pub run_release : D → World F D H → World F D H
  run_release elapsed w = record (with_brain w (release_flag elapsed w.machine.brain)) {
    stage = released;
  }

  -- The task is left: its wrapper makes the future good, and the worker goes round its loop.
  unfoldable pub run_finish : World F D H → World F D H
  run_finish w = record (with_pool w (finish 0 value w.machine.pool)) { stage = begun }

  pub data Step (policy : PolicyModel F H) (w : World F D H) : World F D H → Type 0 where
    tick_step : (now : ℕ) → Step policy w (tick policy now w)
    task_step : (now : ℕ) (t : Task F) → Step policy w (assign policy now t w)
    sense_step : (msg : Message D) → Step policy w (sense msg w)
    start_rt_step : (fifo_ok : Bool) → Step policy w (start_rt fifo_ok w)
    -- Both times are an `int64_t` of nanoseconds.
    wake_step :
        (now planned : Timespec)
        → total_ns now < 2 ^ 63
        → total_ns planned < 2 ^ 63
        → Step policy w (wake now planned w)
    fetch_step :
        (job : Job F) (rest : List (Job F))
        → worker w ≡ waiting
        → w.machine.pool.tasks ≡ job ∷ rest
        → Step policy w (fetch w)
    compute_step :
        (job : Job F) (buffer : List F)
        → worker w ≡ running job
        → w.stage ≡ begun
        → length buffer ≡ w.machine.brain.obs_dim
        → Step policy w (run_compute policy job buffer w)
    check_step :
        (job : Job F) (targets actions : List F)
        → worker w ≡ running job
        → w.stage ≡ computed targets actions
        → Step policy w (run_check job targets actions w)
    commit_step :
        (job : Job F) (now : ℕ) (targets actions : List F)
        → worker w ≡ running job
        → w.stage ≡ admitted targets actions
        → Step policy w (run_commit now targets actions w)
    release_step :
        (job : Job F) (elapsed : D)
        → worker w ≡ running job
        → w.stage ≡ over
        → Step policy w (run_release elapsed w)
    finish_step :
        (job : Job F) → worker w ≡ running job → w.stage ≡ released → Step policy w (run_finish w)

  pub data Reach (policy : PolicyModel F H) (cfg : BrainConfig F) (hidden : H) (now : ℕ)
      : World F D H → Type 0 where
    start : Reach policy cfg hidden now (boot cfg hidden now)
    next :
        {v w : World F D H}
        → Reach policy cfg hidden now v
        → Step policy v w
        → Reach policy cfg hidden now w
