-- ===== src/Timer/Thread.antt =====
-- The life of the real-time thread: `RegisterRealtimeTick` and `~RosNode` of
-- src/RobotBrain/src/core/ros_node.cpp. Locking the memory and the sleep itself are calls of the system.
use robot_brain.Base.{
  ℕ, ◌+◌, Bool, true, false, ◌&&◌, Option, some, none, List, [], ◌∷◌, if◌then◌else◌,
}
use robot_brain.Float.{Float}
use robot_brain.Jitter.{JitterStats, update_jitter}
use robot_brain.Timer.{Timespec, set_scheduling, jitter_ms, advance, period_of}

-- Where the thread is. `absent` is a `std::thread` without a thread; `at_head` is before the test of
-- `rt_running_`, `awake` before the tick.
pub data Place : Type 0 where
  absent starting at_head sleeping awake returned : Place

pub record RtThread (D : Type 0) : Type 0 where
  -- Whether `brain_tick_cb_` is set.
  pub brain_tick_cb : Bool
  -- The period of `control_timer_` in milliseconds, if it was made.
  pub control_timer : Option ℕ
  pub rt_running : Bool
  pub place : Place
  pub stats : JitterStats D
  pub wake_up : Timespec
  pub period_ns : ℕ
  -- How often `brain_tick_cb_` was called.
  pub ticks : ℕ

abbrev pub joinable : Place → Bool
joinable absent = false
joinable _ = true

-- What the system says to a step of the thread: whether the real-time class was given, and the clock.
pub record Reading : Type 0 where
  pub fifo_ok : Bool
  pub clock : Timespec

module _ {D : Type 0} ⦃d : Float D⦄ where
  -- Before a tick is registered.
  abbrev pub unregistered : JitterStats D → RtThread D
  unregistered s = record {
    brain_tick_cb = false;
    control_timer = none;
    rt_running = false;
    place = absent;
    stats = s;
    wake_up = record { tv_sec = 0; tv_nsec = 0 };
    period_ns = 0;
    ticks = 0;
  }

  -- `RegisterRealtimeTick`, up to the start of the thread.
  unfoldable pub register_realtime_tick : ℕ → RtThread D → RtThread D
  register_realtime_tick rate_ms t = record t {
    brain_tick_cb = true;
    rt_running = true;
    place = starting;
    period_ns = period_of rate_ms;
  }

  -- `RegisterBrainTick`; its timer belongs to ROS and calls `call_tick`.
  unfoldable pub register_brain_tick : ℕ → RtThread D → RtThread D
  register_brain_tick rate_ms t = record t { brain_tick_cb = true; control_timer = some rate_ms }

  -- `if (brain_tick_cb_) brain_tick_cb_();`
  unfoldable pub call_tick : RtThread D → RtThread D
  call_tick t = if t.brain_tick_cb then record t { ticks = t.ticks + 1 } else t

  -- The next step of the thread from where it is.
  unfoldable pub proceed : Place → Reading → RtThread D → RtThread D
  unfolding set_scheduling jitter_ms advance call_tick
  proceed absent c t = t
  proceed starting c t = record t {
    place = at_head;
    stats = set_scheduling c.fifo_ok t.stats;
    wake_up = c.clock;
  }
  proceed at_head c t = record t { place = if t.rt_running then sleeping else returned }
  proceed sleeping c t = record t {
    place = awake;
    stats = update_jitter (jitter_ms c.clock t.wake_up) t.stats;
  }
  proceed awake c t = record (call_tick t) {
    place = at_head;
    wake_up = advance t.period_ns t.wake_up;
  }
  proceed returned c t = t

  -- The steps of the thread, the latest first.
  unfoldable pub run : List Reading → RtThread D → RtThread D
  unfolding proceed
  run [] t = t
  run (c ∷ earlier) t = let u = run earlier t in proceed u.place c u

  -- `~RosNode` up to its join.
  unfoldable pub request_stop : RtThread D → RtThread D
  request_stop t = if t.rt_running then record t { rt_running = false } else t

  -- Whether `~RosNode` joins the thread.
  abbrev pub joins : RtThread D → Bool
  joins t = t.rt_running && joinable t.place
