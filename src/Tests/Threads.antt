-- ===== src/Tests/Threads.antt =====
-- The theorems on whole runs of the threads, applied to the run of Tests/Runs.
use robot_brain.Base.{refl, some, [], arith}
use robot_brain.Float.Fixed.{fixed_float, fixed_convert, Fixed-IsIeee}
use robot_brain.Timer.{Timespec}
use robot_brain.Jitter.Quantiles.{InOrder}
use robot_brain.ThreadPool.{enqueue, create, take}
use robot_brain.Ros.{get_latest_proprioception}
use robot_brain.Ros.Cache.{joint_state, imu, receive}
use robot_brain.Brain.{new_brain}
use robot_brain.Brain.Tasks.{process_robot_task}
use robot_brain.Brain.Control.{control_loop_step}
use robot_brain.Brain.Inference.{compute, check_generation}
use robot_brain.Server.Status.{build_status_message}
use robot_brain.System.{
  boot, assign, tick, sense, wake, fetch, run_compute, run_check, tick_step, task_step, sense_step,
  wake_step, fetch_step, compute_step, check_step, commit_step, Reach,
}
use robot_brain.System as system
use robot_brain.System.Frames.Defs as frames
use robot_brain.System.Frames.Defs.{Conserved, Counted}
use robot_brain.System.Frames.{frames-Conserved}
use robot_brain.System.Delays.{reported_jitter}
use robot_brain.Tests.{config, policy, walk, joints, upright, buffer}
use robot_brain.Tests.Runs.{frame, targets, actions, sent, sent_run}

-- The control thread wakes half a second late.
abbrev planned : Timespec
planned = record { tv_sec = 3; tv_nsec = 0 }

abbrev woken : Timespec
woken = record { tv_sec = 3; tv_nsec = 500_000_000 }

reported_jitter_example :
    InOrder
      (build_status_message 9
        (wake woken planned sent).machine.brain
        (some (wake woken planned sent).machine.ros)).jitter
reported_jitter_example =
    reported_jitter Fixed-IsIeee 9
      (system.next sent_run (wake_step woken planned (omega arith) (omega arith)))

ready_count : Counted policy config 0 1_000 1 0 (
    tick policy 1_020 (
      assign policy 1_010 walk
        (sense (imu upright) (sense (joint_state joints) (boot config 0 1_000)))))
unfolding boot sense assign tick control_loop_step process_robot_task new_brain
    get_latest_proprioception receive enqueue create
ready_count =
    frames.next
      (frames.next
        (frames.next (frames.next frames.start (sense_step (joint_state joints)))
          (sense_step (imu upright)))
        (task_step 1_010 walk))
      (tick_step 1_020)

sent_count : Counted policy config 0 1_000 1 0 sent
unfolding run_compute compute run_check check_generation fetch take tick control_loop_step assign
    process_robot_task sense boot new_brain get_latest_proprioception receive enqueue create
sent_count =
    frames.next
      (frames.next
        (frames.next (frames.next ready_count (fetch_step frame [] refl refl))
          (compute_step frame buffer refl refl refl))
        (check_step frame targets actions refl refl))
      (commit_step frame 1_030 targets actions refl refl)

frames-Conserved_example : Conserved 1 0 sent
frames-Conserved_example = frames-Conserved sent_count
