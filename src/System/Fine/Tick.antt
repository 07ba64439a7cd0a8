-- ===== src/System/Fine/Tick.antt =====
-- `ControlLoopStep` of ai_brain.cpp, cut at each access to what another thread can change. The counters
-- of dropped frames move with the store next to them.
use robot_brain.Base.{ℕ, Bool, true, false, Option, none, some, ◌&&◌, if◌then◌else◌}
use robot_brain.Float.{Float, Convert}
use robot_brain.Ros.{Proprioception, get_latest_proprioception, publish_joint_command}
use robot_brain.ThreadPool.{ThreadPool, enqueue}
use robot_brain.Brain.{
  Machine, Job, PolicyModel, RobotState, executing, standing, with_state, zero_vec,
}
use robot_brain.Brain.Motion.{ramp_velocity_command}
use robot_brain.Brain.Control.{
  is_executing, watchdog_due, detect_reset, elapsed_dt, make_job, drop_frame, set_inferring,
}

-- Where the control thread is, with the local variables that it still needs.
pub data TickPlace (F : Type 0) : Type 0 where
  -- Between two ticks.
  out : TickPlace F
  -- The heartbeat is read: whether it has expired.
  timed : ℕ → Bool → TickPlace F
  -- EXECUTING was read after an expired heartbeat.
  lost : ℕ → TickPlace F
  -- STANDING is stored.
  fallen : ℕ → TickPlace F
  -- Past the watchdog.
  watched : ℕ → TickPlace F
  -- The state is read.
  loaded : ℕ → RobotState → TickPlace F
  -- `is_inferring_` is won.
  holding : ℕ → RobotState → TickPlace F
  -- The sensor cache is read.
  sensed : ℕ → RobotState → Proprioception F → TickPlace F
  -- Past the reset detection.
  settled : ℕ → RobotState → Proprioception F → TickPlace F
  -- The velocity is ramped.
  ramped : RobotState → Proprioception F → TickPlace F
  -- The task type and the generation are read, and the task is made.
  made : Job F → TickPlace F
  -- The pool was full.
  refused : TickPlace F

module _ {F D H : Type 0} where
  abbrev pub after_enqueue :
      Machine F D H → Option (ThreadPool (Job F)) → Machine F D H × TickPlace F
  after_enqueue m (some pool) = (record m { pool = pool }, out)
  after_enqueue m none = (m, refused)

module _ {F D H : Type 0} ⦃f : Float F⦄ where
  -- `now = GetCurrentTimeMs()`, and the comparison with the heartbeat.
  unfoldable pub begin_tick : ℕ → Machine F D H → TickPlace F
  unfolding watchdog_due
  begin_tick now m = timed now (watchdog_due now m.brain)

  -- `is_inferring_.compare_exchange_strong(expected, true)`
  unfoldable pub win_flag : ℕ → RobotState → Machine F D H → Machine F D H × TickPlace F
  win_flag now state m =
      if m.brain.is_inferring
      then (record m { brain = drop_frame m.brain }, out)
      else (record m { brain = set_inferring true m.brain }, holding now state)

  unfoldable pub after_sense :
      PolicyModel F H
      → ℕ
      → RobotState
      → Proprioception F
      → Machine F D H
      → Machine F D H × TickPlace F
  unfolding detect_reset
  after_sense policy now state prop m =
      if prop.valid
      then (
        record m { brain = detect_reset policy prop.projected_gravity.v2 m.brain },
        settled now state prop,
      )
      else (record m { brain = set_inferring false m.brain }, out)

module _ {F D H : Type 0} ⦃f : Float F⦄ ⦃d : Float D⦄ ⦃c : Convert F D⦄ where
  unfoldable pub enter_state : ℕ → RobotState → Machine F D H → Machine F D H × TickPlace F
  unfolding win_flag
  enter_state now executing m = win_flag now executing m
  enter_state now standing m = win_flag now standing m
  enter_state now _ m =
      (record m { ros = publish_joint_command m.brain.default_joint_positions m.ros }, out)

  -- The next access of the tick.
  unfoldable pub proceed_tick :
      PolicyModel F H → TickPlace F → Machine F D H → Machine F D H × TickPlace F
  unfolding enter_state after_sense elapsed_dt ramp_velocity_command make_job
  proceed_tick policy out m = (m, out)
  proceed_tick policy (timed now due) m =
      (m, if due && is_executing m.brain.metrics.current_state then lost now else watched now)
  proceed_tick policy (lost now) m = (record m { brain = with_state standing m.brain }, fallen now)
  proceed_tick policy (fallen now) m =
      (record m { brain = record m.brain { velocity_cmd = zero_vec } }, watched now)
  proceed_tick policy (watched now) m = (m, loaded now m.brain.metrics.current_state)
  proceed_tick policy (loaded now state) m = enter_state now state m
  proceed_tick policy (holding now state) m =
      (m, sensed now state (get_latest_proprioception m.ros))
  proceed_tick policy (sensed now state prop) m = after_sense policy now state prop m
  proceed_tick policy (settled now state prop) m = (
    record m {
      brain =
          ramp_velocity_command (elapsed_dt now m.brain) (record m.brain { last_control_ms = now });
    },
    ramped state prop,
  )
  proceed_tick policy (ramped state prop) m = (m, made (make_job state prop m.brain))
  proceed_tick policy (made job) m = after_enqueue m (enqueue m.pool job)
  proceed_tick policy refused m =
      (record m { brain = drop_frame (set_inferring false m.brain) }, out)
