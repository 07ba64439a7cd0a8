-- ===== src/Robot.antt =====
-- The whole node: the sessions of the server, whose handlers call the brain, beside the threads of the
-- brain. `TaskSession::HandleEvent` and `StatusSession::HandleEvent` of
-- src/RobotBrain/src/core/task_session.cpp with their calls of `ProcessRobotTask` and
-- `BuildStatusMessage` carried out, where Server only notes them.
pub mod Parts
pub mod Open
pub mod Shown
pub mod Told
pub mod History
pub mod Silence
use robot_brain.Base.{ℕ, ◌≡◌, Bool, true, false, not, some, List, [], ◌∷◌, ◌++◌, if◌then◌else◌}
use robot_brain.Float.{Float, Convert}
use robot_brain.Brain.{BrainConfig, PolicyModel}
use robot_brain.Brain.Tasks.{Task}
use robot_brain.Server
use robot_brain.Server.{
  EventType, connect, status_read, status_alarm, Kind, task_session, status_session, Tag, Server,
  Request, is_finished, find_session,
}
use robot_brain.Server.Status.{RobotStatus, build_status_message}
use robot_brain.System
use robot_brain.System.{World, boot, assign, task_step}

-- What went over the border between the server and the brain: a task in, or a status message out.
pub data Event (F D : Type 0) : Type 0 where
  brought : Task F → Event F D
  written : RobotStatus F D → Event F D

pub record Robot (F D H : Type 0) : Type 0 where
  pub server : Server F
  pub world : World F D H
  -- The tasks that were handed to the brain and the messages that were written, in the order of the
  -- run, the latest first.
  pub events : List (Event F D)

-- The clocks that a handler reads: the steady one, for the watchdog, and the one of the messages.
pub record Clocks : Type 0 where
  pub now : ℕ
  pub timestamp : ℕ

module _ {F D H : Type 0} ⦃f : Float F⦄ ⦃d : Float D⦄ ⦃c : Convert F D⦄ where
  -- `BuildStatusMessage` and `Write`, on the brain as it is.
  unfoldable pub say : Clocks → Robot F D H → Robot F D H
  say t n =
      let m = n.world.machine in
      record n {
        events = written (build_status_message t.timestamp m.brain (some m.ros)) ∷ n.events;
      }

  -- What the handler of an event has the brain do.
  unfoldable pub call_brain :
      Kind → EventType → ℕ → PolicyModel F H → Clocks → Request F → Robot F D H → Robot F D H
  unfolding say
  call_brain task_session connect i policy t r n = record n {
    world = assign policy t.now r.task n.world;
    events = brought r.task ∷ n.events;
  }
  call_brain status_session status_read i policy t r n = say t n
  call_brain status_session status_alarm i policy t r n =
      if not (is_finished (find_session i n.server.sessions)) then say t n else n
  call_brain _ _ i policy t r n = n

  -- `HandleEvent`
  unfoldable pub handle_event :
      Tag → Bool → PolicyModel F H → Clocks → Request F → Robot F D H → Robot F D H
  unfolding call_brain
  handle_event tag true policy t r n =
      record (call_brain tag.kind tag.type tag.owner policy t r n) {
        server = Server.handle_event tag true r n.server;
      }
  handle_event tag false policy t r n = record n {
    server = Server.handle_event tag false r n.server;
  }

  -- After `GrpcServer::Run` up to the loop over the queue.
  unfoldable pub start_robot : BrainConfig F → H → ℕ → Robot F D H
  start_robot cfg hidden now = record {
    server = Server.start_server;
    world = boot cfg hidden now;
    events = [];
  }

  -- A step of the threads that is not a task: tasks come from clients.
  abbrev pub IsOwn :
      {policy : PolicyModel F H} {v w : World F D H} → System.Step policy v w → Type 0
  IsOwn (task_step now t) = ⊥
  IsOwn _ = Unit

  pub data Step (policy : PolicyModel F H) (n : Robot F D H) : Robot F D H → Type 0 where
    complete :
        (before : List Tag) (tag : Tag) (after : List Tag) (ok : Bool) (t : Clocks) (r : Request F)
        → n.server.tags ≡ before ++ tag ∷ after
        → Step policy n (
            handle_event tag ok policy t r
              (record n { server = record n.server { tags = before ++ after } }))
    inside :
        {w : World F D H} (s : System.Step policy n.world w)
        → IsOwn s
        → Step policy n (record n { world = w })

  pub data Reach (policy : PolicyModel F H) (cfg : BrainConfig F) (hidden : H) (now : ℕ)
      : Robot F D H → Type 0 where
    start : Reach policy cfg hidden now (start_robot cfg hidden now)
    next :
        {m n : Robot F D H}
        → Reach policy cfg hidden now m
        → Step policy m n
        → Reach policy cfg hidden now n
