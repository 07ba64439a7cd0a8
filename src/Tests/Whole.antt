-- ===== src/Tests/Whole.antt =====
-- The theorems on the whole node: a client brings a task, and another reads the status.
use robot_brain.Base.{ℕ, ◌≡◌, ◌↔◌, refl, true, [], ◌∷◌}
use robot_brain.Base.Int.{pos}
use robot_brain.Float.Fixed.{Fixed, fixed_float, fixed_convert, Fixed-IsIeee}
use robot_brain.Server
use robot_brain.Server.{Tag, Request, task_session, status_session, connect, status_read, finish}
use robot_brain.Robot
use robot_brain.Robot.{Robot, Clocks, handle_event, start_robot, complete}
use robot_brain.Robot.{inside}
use robot_brain.Robot.Silence.{readings, at_once, and_then, silence_unnoticed}
use robot_brain.Robot.Silence.Frames.{HasFrame}
use robot_brain.Ros.{get_latest_proprioception}
use robot_brain.Ros.Cache.{joint_state, imu, receive}
use robot_brain.Brain.{new_brain}
use robot_brain.Brain.Tasks.{process_robot_task}
use robot_brain.System.{boot, assign, sense, tick, sense_step}
use robot_brain.Robot.Open.{Reach-world_iff}
use robot_brain.Robot.Parts.{tasks_of}
use robot_brain.Robot.History.{IsHistory, Reach-IsHistory}
use robot_brain.System
use robot_brain.Tests.{config, policy, walk, joints, upright}
use robot_brain.Tests.Runs.{sent, config-IsSafe}

abbrev clocks : Clocks
clocks = record { now = 1_010; timestamp = 1_700 }

abbrev request : Request Fixed
request = record { task = walk; interval_ms = pos 100 }

abbrev caller : Tag
caller = record { owner = 0; kind = task_session; type = connect }

abbrev reader : Tag
reader = record { owner = 1; kind = status_session; type = status_read }

abbrev answer : Tag
answer = record { owner = 0; kind = task_session; type = finish }

abbrev next_caller : Tag
next_caller = record { owner = 2; kind = task_session; type = connect }

abbrev ready : Robot Fixed Fixed ℕ
ready = start_robot config 0 1_000

abbrev begun : Robot Fixed Fixed ℕ
begun =
    handle_event caller true policy clocks request
      (record ready { server = record ready.server { tags = reader ∷ [] } })

abbrev read : Robot Fixed Fixed ℕ
read =
    handle_event reader true policy clocks request
      (record begun { server = record begun.server { tags = answer ∷ next_caller ∷ [] } })

read_run : Robot.Reach policy config 0 1_000 read
unfolding handle_event start_robot Server.handle_event Server.start_server Server.create
read_run =
    Robot.next (Robot.next Robot.start (complete (reader ∷ []) caller [] true clocks request refl))
      (complete (answer ∷ next_caller ∷ []) reader [] true clocks request refl)

Reach-IsHistory_example :
    (tasks_of read.events ≡ read.server.assigned) × IsHistory config read.events
Reach-IsHistory_example = Reach-IsHistory Fixed-IsIeee config-IsSafe read_run

Reach-world_iff_example :
    System.Reach policy config 0 1_000 sent
    ↔ ((n : Robot Fixed Fixed ℕ) × Robot.Reach policy config 0 1_000 n × (n.world ≡ sent))
Reach-world_iff_example = Reach-world_iff policy config 0 1_000 sent

-- Both sensors send one message, and then a client connects.
abbrev sensed : Robot Fixed Fixed ℕ
sensed = record ready { world = sense (imu upright) (sense (joint_state joints) ready.world) }

sensed_run : Robot.Reach policy config 0 1_000 sensed
unfolding start_robot
sensed_run =
    Robot.next (Robot.next Robot.start (inside (sense_step (joint_state joints)) tt))
      (inside (sense_step (imu upright)) tt)

abbrev commanded : Robot Fixed Fixed ℕ
commanded =
    handle_event caller true policy clocks request
      (record sensed { server = record sensed.server { tags = reader ∷ [] } })

-- A minute later.
silence_unnoticed_example :
    HasFrame (readings sensed.world) (tick policy 60_000 commanded.world).machine
unfolding start_robot Server.start_server Server.create handle_event assign process_robot_task sense
    receive boot new_brain get_latest_proprioception
silence_unnoticed_example =
    silence_unnoticed 60_000 sensed_run
      (and_then at_once (complete (reader ∷ []) caller [] true clocks request refl) tt) refl refl
