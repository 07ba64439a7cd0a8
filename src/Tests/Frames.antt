-- ===== src/Tests/Frames.antt =====
-- The theorems on the whole robot, on the runs of one frame.
use robot_brain.Base.{arith, length, ℕ, ◌≡◌, ◌≢◌, refl, ◌∷◌, map, none, get_or}
use robot_brain.Float.Fixed.{Fixed, fixed_float, fixed_convert, Fixed-IsIeee}
use robot_brain.ThreadPool.{enqueue}
use robot_brain.Brain.{AiBrain, new_brain}
use robot_brain.Brain.Observation.{ObsInput, build_observation, layout}
use robot_brain.Brain.Observation.Layout.{build_observation-layout}
use robot_brain.Brain.Motion.{apply_rate_limit}
use robot_brain.Brain.Inference.{obs_input, joint_targets_of, admitted}
use robot_brain.Brain.Limits.{
  InLimits, default-InLimits, joint_targets_of-InLimits, apply_rate_limit-InLimits,
}
use robot_brain.System.{assign, run_check, run_commit, check_step}
use robot_brain.System.Safety.{IsSafe, Reach-IsSafe}
use robot_brain.System.Invariant.{Inv, Reach-Inv, pool_never_full}
use robot_brain.System.Overtaking.{stop_overtaken}
use robot_brain.System.Preemption.{here, more, OnlyPose, stale_result_dropped}
use robot_brain.Tests.{config, policy, stop, num, buffer}
use robot_brain.Tests.Runs.{
  passed, sent, done, frame, targets, actions, config-IsSafe, sent_run, stopped, stopped-worker,
  stopped_stage, stopped_generation, passed_stage, done_free, passed_run, done_run,
}

Reach-IsSafe_example : IsSafe config sent
Reach-IsSafe_example = Reach-IsSafe Fixed-IsIeee config-IsSafe sent_run

Reach-Inv_example : Inv passed
Reach-Inv_example = Reach-Inv passed_run

pool_never_full_example : enqueue done.machine.pool frame ≢ none
pool_never_full_example = pool_never_full done_run done_free frame

stale_result_dropped_example : OnlyPose stopped (run_check frame targets actions stopped)
unfolding run_check
stale_result_dropped_example =
    stale_result_dropped policy frame stopped (run_check frame targets actions stopped) 1 1
      (more here (check_step frame targets actions stopped-worker stopped_stage) stopped-worker)
      stopped-worker (rw stopped_stage tt) stopped_generation.1 stopped_generation.0 (omega arith)
      (omega arith)

stop_overtaken_example :
    let late = assign policy 1_025 stop passed in
    (late.stage ≡ admitted targets actions)
    × ((run_commit 1_030 targets actions late).machine.ros.published
        ≡ map fixed_convert.widen (apply_rate_limit late.machine.brain targets)
          ∷ map fixed_convert.widen passed.machine.brain.default_joint_positions
          ∷ passed.machine.ros.published)
stop_overtaken_example =
    stop_overtaken policy passed stop 1_030 1_025 targets actions refl passed_stage

abbrev fresh : AiBrain Fixed Fixed ℕ
fresh = new_brain config 0 1_000

apply_rate_limit-InLimits_example :
    InLimits config (apply_rate_limit fresh (joint_targets_of frame actions fresh))
unfolding new_brain
apply_rate_limit-InLimits_example =
    apply_rate_limit-InLimits Fixed-IsIeee fresh (joint_targets_of frame actions fresh)
      config-IsSafe (default-InLimits Fixed-IsIeee config config-IsSafe)
      (joint_targets_of-InLimits Fixed-IsIeee fresh frame actions config-IsSafe)

abbrev observed : ObsInput Fixed
observed = obs_input frame fresh

abbrev observed_twelve : ObsInput Fixed
observed_twelve = record observed { num_joints = 12 }

build_observation-layout_example :
    (get_or (build_observation observed_twelve buffer) 21 (num 0) ≡ layout observed_twelve 21)
    × (length (build_observation observed_twelve buffer) ≡ 47)
build_observation-layout_example =
    build_observation-layout observed_twelve buffer 21 refl (omega arith) (omega arith)
