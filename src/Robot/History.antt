-- ===== src/Robot/History.antt =====
-- What the clients of the whole node are told: the messages of the status streams, against the tasks
-- that the brain was handed before each of them.
use robot_brain.Base.{ℕ, ◌%◌, ◌^◌, ◌≡◌, refl, ap, List, [], ◌∷◌, length, some}
use robot_brain.Float.{Float, Convert, IsIeee}
use robot_brain.Brain.{BrainConfig, PolicyModel, RobotState}
use robot_brain.Brain.Tasks.{Task}
use robot_brain.Brain.Limits.{IsSafeConfig}
use robot_brain.Server
use robot_brain.Server.{Server, Request, create}
use robot_brain.Server.Status.{RobotStatus, build_status_message, state_number, task_of_number}
use robot_brain.System.{World}
use robot_brain.Robot.{
  Event, brought, written, Robot, Clocks, say, start_robot, complete, inside, Reach, start, next,
}
use robot_brain.Robot.Parts.{
  Answered, silent, told, tasked, tasks_of, handle_event-Answered, Reach-world,
}
use robot_brain.Robot.Shown.{IsShown, Reach-IsShown}
use robot_brain.Robot.Told.{IsTold, StateFits, latest_type, boot-IsTold, assign-IsTold, Own-IsTold}

module _ {F D : Type 0} ⦃f : Float F⦄ where
  -- A message that is right after the tasks `ts`, the latest first.
  pub record IsRight (cfg : BrainConfig F) (ts : List (Task F)) (m : RobotStatus F D) : Type 0 where
    pub generation : m.task_generation ≡ length ts % 2 ^ 64
    pub type : m.task_type ≡ task_of_number (latest_type ts)
    pub state : (s : RobotState) × (m.state ≡ state_number s) × StateFits ts s
    pub targets : IsShown cfg m.joint_targets

  -- Each message of a run is right after the tasks that were brought before it, none of a later one.
  unfoldable pub IsHistory : BrainConfig F → List (Event F D) → Type 0
  IsHistory cfg [] = Unit
  IsHistory cfg (brought t ∷ es) = IsHistory cfg es
  IsHistory cfg (written m ∷ es) = IsRight cfg (tasks_of es) m × IsHistory cfg es

module _ {F D H : Type 0} ⦃f : Float F⦄ ⦃d : Float D⦄ ⦃c : Convert F D⦄ where
  build_status_message-IsRight :
      {cfg : BrainConfig F} {ts : List (Task F)} (timestamp : ℕ) (w : World F D H)
      → IsTold ts w.machine.brain
      → IsShown cfg w.machine.ros.last_joint_targets
      → IsRight cfg ts (build_status_message timestamp w.machine.brain (some w.machine.ros))
  unfolding build_status_message
  build_status_message-IsRight timestamp w i h = record {
    generation = i.reported;
    type = ap task_of_number i.type;
    state = (w.machine.brain.metrics.current_state, refl, i.state);
    targets = h;
  }

  -- The brain goes by the tasks that the server handed over, and the messages fit in with them.
  record IsKept (cfg : BrainConfig F) (n : Robot F D H) : Type 0 where
    brain : IsTold n.server.assigned n.world.machine.brain
    tasks : tasks_of n.events ≡ n.server.assigned
    history : IsHistory cfg n.events

  Answered-IsKept :
      {cfg : BrainConfig F} {policy : PolicyModel F H} {t : Clocks} {r : Request F}
      {m n : Robot F D H}
      → Answered policy t r m n
      → IsShown cfg m.world.machine.ros.last_joint_targets
      → IsKept cfg m
      → IsKept cfg n
  unfolding say tasks_of IsHistory
  Answered-IsKept (silent a w) h k = record {
    brain = rw a k.brain;
    tasks = rw a k.tasks;
    history = k.history;
  }
  Answered-IsKept {t = t} {m = m} (told a w) h k = record {
    brain = rw a k.brain;
    tasks = rw a k.tasks;
    history = (build_status_message-IsRight t.timestamp m.world (rw k.tasks k.brain) h, k.history);
  }
  Answered-IsKept {policy = policy} {t} {r} {m} (tasked a w) h k = record {
    brain = rw a (assign-IsTold m.server.assigned policy t.now r.task m.world k.brain);
    tasks = rw a (ap (◌∷◌ r.task) k.tasks);
    history = k.history;
  }

  module _ (laws : IsIeee F) {cfg : BrainConfig F} (safe : IsSafeConfig cfg) where
    Reach-IsKept :
        {policy : PolicyModel F H} {hidden : H} {now : ℕ} {n : Robot F D H}
        → Reach policy cfg hidden now n
        → IsKept cfg n
    unfolding start_robot Server.start_server create tasks_of IsHistory
    Reach-IsKept {hidden = hidden} {now} start = record {
      brain = boot-IsTold cfg hidden now;
      tasks = refl;
      history = tt;
    }
    Reach-IsKept {policy} (next r (complete before tag after ok t q e)) =
        let k = Reach-IsKept r in
        Answered-IsKept (handle_event-Answered tag ok policy t q _)
          (Reach-IsShown laws safe (Reach-world r))
          (record { brain = k.brain; tasks = k.tasks; history = k.history })
    Reach-IsKept (next {m = m} r (inside s own)) =
        let k = Reach-IsKept r in
        record {
          brain = Own-IsTold m.server.assigned s own k.brain;
          tasks = k.tasks;
          history = k.history;
        }

    -- In arithmetic that meets the IEEE 754 laws, with a configuration whose defaults are one for each
    -- joint and finite and whose limits are finite and at least 0, and in every run of the whole node:
    -- the tasks handed to the brain, in the order of the run, are those that the connected clients
    -- brought; and each status message, where it stands in that order, carries the number of the tasks
    -- handed over before it, up to the wrap-around at 64 bits, and the type of the latest of them (that
    -- of number 0 before the first); says STANDING, or EXECUTING where there is a latest task and it
    -- is not an emergency stop; and shows joint targets that are all zero, one for each joint, or
    -- within the limits.
    pub Reach-IsHistory :
        {policy : PolicyModel F H} {hidden : H} {now : ℕ} {n : Robot F D H}
        → Reach policy cfg hidden now n
        → (tasks_of n.events ≡ n.server.assigned) × IsHistory cfg n.events
    Reach-IsHistory r = let k = Reach-IsKept r in (k.tasks, k.history)
