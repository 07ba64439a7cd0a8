-- ===== src/Tests/Meetings.antt =====
-- The theorems on the finer runs: an emergency stop comes in the middle of a tick.
use robot_brain.Base.{ℕ, ◌≡◌, refl, true, ◌≤◌, []}
use robot_brain.Float.Fixed.{Fixed, fixed_float, fixed_convert, Fixed-IsIeee}
use robot_brain.System.Safety.{IsSafe}
use robot_brain.System.Spec.{Move}
use robot_brain.System.Fine.{
  Threads, Run, next, at_rest, enter_tick, go_tick, enter_task, go_task, enter_tick_turn,
  go_tick_turn, enter_task_turn, go_task_turn,
}
use robot_brain.System.Fine.Flag.{IsOneFrame, Run-IsOneFrame}
use robot_brain.System.Fine.Safety.{Run-IsSafe}
use robot_brain.System.Fine.Whole.{Reach-Run}
use robot_brain.System.Fine.Refines.{seen, Turn-refines}
use robot_brain.System.Liveness.{Busy, here, and_then, is_work, Busy-ends}
use robot_brain.System.{World, Step, boot, sense, assign, tick, fetch, tick_step, fetch_step}
use robot_brain.Brain.{new_brain}
use robot_brain.Brain.Control.{control_loop_step}
use robot_brain.Brain.Tasks.{process_robot_task}
use robot_brain.Ros.{get_latest_proprioception}
use robot_brain.Ros.Cache.{receive}
use robot_brain.ThreadPool.{enqueue, create, take}
use robot_brain.System.Buffers.{IsSteady, has_buffer, lease_of, Leased-IsSteady}
use robot_brain.Tests.{config, policy, stop}
use robot_brain.Tests.Runs.{sent, sent_run, done, done_run, frame, ready, ready_run, config-IsSafe}

-- The tick has read the heartbeat and the state.
abbrev deciding : Threads Fixed Fixed ℕ
deciding = go_tick policy (go_tick policy (enter_tick 1_050 (at_rest done)))

deciding-Run : Run policy config 0 1_000 deciding
unfolding enter_tick go_tick
deciding-Run =
    next
      (next (next (Reach-Run policy config 0 1_000 done_run) (enter_tick_turn 1_050 refl))
        go_tick_turn)
      go_tick_turn

-- The tick wins the flag.
Turn-refines_example :
    Move
      (seen deciding.world deciding.control)
      (seen (go_tick policy deciding).world (go_tick policy deciding).control)
Turn-refines_example = Turn-refines deciding-Run go_tick_turn

-- Then the stop is stored and counted.
abbrev met : Threads Fixed Fixed ℕ
met = go_task policy 1_060 (enter_task stop (go_tick policy deciding))

met-Run : Run policy config 0 1_000 met
unfolding enter_tick go_tick
met-Run =
    next (next (next deciding-Run go_tick_turn) (enter_task_turn stop refl)) (go_task_turn 1_060)

Run-IsOneFrame_example : IsOneFrame met
Run-IsOneFrame_example = Run-IsOneFrame met-Run

Run-IsSafe_example : IsSafe config met.world
Run-IsSafe_example = Run-IsSafe Fixed-IsIeee config-IsSafe met-Run

-- The next tick comes while the frame is in the queue, and then the worker takes that.
late_tick-Busy : Busy policy ready 1 (fetch (tick policy 1_040 ready))
unfolding boot sense assign tick control_loop_step process_robot_task new_brain
    get_latest_proprioception receive enqueue create fetch take
late_tick-Busy =
    and_then (and_then (here refl) (tick_step 1_040) refl) (fetch_step frame [] refl refl) refl

Busy-ends_example :
    (1 ≤ 5)
    × ((u : World Fixed Fixed ℕ) × (s : Step policy (fetch (tick policy 1_040 ready)) u) × (is_work
            s
          ≡ true))
Busy-ends_example = Busy-ends ready_run late_tick-Busy

Leased-IsSteady_example : IsSteady 47 (has_buffer sent.stage) (lease_of sent_run).0
Leased-IsSteady_example = Leased-IsSteady (lease_of sent_run).1
