-- ===== src/Tests/Runs.antt =====
-- One frame of the robot, from the first sensor message to the command that it sends.
use robot_brain.Base.{
  ℕ, ◌<◌, get_or, zero, suc, ◌+◌, ◌%◌, ◌^◌, ◌≡◌, refl, List, [], ◌∷◌, false, arith,
}
use robot_brain.Base.Int.{◌*ℤ◌, quot_ℕ}
use robot_brain.Float.Fixed.{Fixed, fixed_float, fixed_convert}
use robot_brain.Ros.{get_latest_proprioception}
use robot_brain.Ros.Cache.{joint_state, imu, receive}
use robot_brain.ThreadPool.{running, enqueue, create, take}
use robot_brain.Brain.{Job, executing, new_brain}
use robot_brain.Brain.Tasks.{process_robot_task}
use robot_brain.Brain.Control.{control_loop_step, make_job}
use robot_brain.Brain.Inference.{
  computed, admitted, compute, check_generation, release_flag, joint_targets_of,
}
use robot_brain.Brain.Limits.{IsSafeConfig}
use robot_brain.Float.{Finite}
use robot_brain.System.{
  World, boot, assign, tick, sense, fetch, run_compute, run_check, run_commit, run_release,
  run_finish, worker, tick_step, task_step, sense_step, fetch_step, compute_step, check_step,
  commit_step, release_step, finish_step, Reach, start, next,
}
use robot_brain.Tests.{config, policy, walk, stop, joints, upright, buffer, num}

abbrev pub Small : Type 0
Small = World Fixed Fixed ℕ

abbrev booted : Small
booted = boot config 0 1_000

abbrev pub ready : Small
ready =
    tick policy 1_020
      (assign policy 1_010 walk (sense (imu upright) (sense (joint_state joints) booted)))

abbrev pub frame : Job Fixed
frame = make_job executing (get_latest_proprioception ready.machine.ros) ready.machine.brain

abbrev pub fetched : Small
fetched = fetch ready

abbrev pub actions : List Fixed
actions = num 90_000 ∷ num 0 ∷ []

abbrev pub targets : List Fixed
targets = joint_targets_of frame actions fetched.machine.brain

abbrev pub inferred : Small
inferred = run_compute policy frame buffer fetched

abbrev pub passed : Small
passed = run_check frame targets actions inferred

abbrev pub sent : Small
sent = run_commit 1_030 targets actions passed

abbrev pub done : Small
done = run_finish (run_release (num 4_000) sent)

pub ready_run : Reach policy config 0 1_000 ready
ready_run =
    next
      (next (next (next start (sense_step (joint_state joints))) (sense_step (imu upright)))
        (task_step 1_010 walk))
      (tick_step 1_020)

pub fetched_run : Reach policy config 0 1_000 fetched
unfolding boot sense assign tick control_loop_step process_robot_task new_brain
    get_latest_proprioception receive enqueue create
fetched_run = next ready_run (fetch_step frame [] refl refl)

pub inferred_run : Reach policy config 0 1_000 inferred
unfolding fetch take tick control_loop_step assign process_robot_task sense boot new_brain
    get_latest_proprioception receive enqueue create
inferred_run = next fetched_run (compute_step frame buffer refl refl refl)

pub passed_run : Reach policy config 0 1_000 passed
unfolding run_compute compute fetch take tick control_loop_step assign process_robot_task sense boot
    new_brain get_latest_proprioception receive enqueue create
passed_run = next inferred_run (check_step frame targets actions refl refl)

pub sent_run : Reach policy config 0 1_000 sent
unfolding run_compute compute run_check check_generation fetch take tick control_loop_step assign
    process_robot_task sense boot new_brain get_latest_proprioception receive enqueue create
sent_run = next passed_run (commit_step frame 1_030 targets actions refl refl)

pub done_run : Reach policy config 0 1_000 done
unfolding run_compute compute run_check check_generation run_commit run_release fetch take tick
    control_loop_step assign process_robot_task sense boot new_brain get_latest_proprioception
    receive enqueue create
done_run =
    next (next sent_run (release_step frame (num 4_000) refl refl)) (finish_step frame refl refl)

pub passed_stage : passed.stage ≡ admitted targets actions
unfolding run_compute compute run_check check_generation fetch take tick control_loop_step assign
    process_robot_task sense boot new_brain get_latest_proprioception receive enqueue create
passed_stage = refl

-- The stop arrives while the targets are computed.
abbrev pub stopped : Small
stopped = assign policy 1_025 stop inferred

pub stopped-worker : worker stopped ≡ running frame
unfolding run_compute compute fetch take tick control_loop_step assign process_robot_task sense boot
    new_brain get_latest_proprioception receive enqueue create
stopped-worker = refl

pub stopped_stage : stopped.stage ≡ computed targets actions
unfolding run_compute compute fetch take tick control_loop_step assign process_robot_task sense boot
    new_brain get_latest_proprioception receive enqueue create
stopped_stage = refl

pub stopped_generation :
    (stopped.machine.brain.task_generation ≡ (frame.my_generation + 1) % 2 ^ 64)
    × (frame.my_generation < 2 ^ 64)
unfolding run_compute compute fetch take tick control_loop_step assign process_robot_task sense boot
    new_brain get_latest_proprioception receive enqueue create
stopped_generation = (refl, omega arith)

pub done_free : done.machine.brain.is_inferring ≡ false
unfolding run_finish run_release release_flag
done_free = refl

defaults-Finite :
    (i : ℕ) → i < 2 → Finite {F = Fixed} (get_or config.default_joint_positions i (num 0))
defaults-Finite zero h = (refl, refl)
defaults-Finite (suc zero) h = (refl, refl)
defaults-Finite (suc (suc i)) h = absurd (omega arith)

pub config-IsSafe : IsSafeConfig config
unfolding quot_ℕ ◌*ℤ◌
config-IsSafe = record {
  sized = refl;
  defaults = defaults-Finite;
  limit_finite = (refl, refl);
  limit_pos = refl;
  step_finite = (refl, refl);
  step_pos = refl;
}
