-- ===== src/System/Fine.antt =====
-- The threads of System with finer steps: a tick and a task are cut at each access to what another
-- thread can change, so that tasks, ticks and inference meet in the middle of one another.
pub mod Tick
pub mod Task
pub mod Shadow
pub mod Held
pub mod TickFlag
pub mod Flag
pub mod Safety
pub mod Whole
pub mod Refines
use robot_brain.Base.{ℕ, ◌≡◌}
use robot_brain.Float.{Float, Convert}
use robot_brain.Brain.{BrainConfig, PolicyModel}
use robot_brain.Brain.Tasks as tasks
use robot_brain.System.{World, Step, tick_step, task_step, boot, with_brain, with_ros}
use robot_brain.System.Fine.Tick.{TickPlace, out, begin_tick, proceed_tick}
use robot_brain.System.Fine.Task.{TaskPlace, ready, stored, store_task, proceed_task}

pub record Threads (F D H : Type 0) : Type 0 where
  pub world : World F D H
  -- Where the control thread and the gRPC thread are.
  pub control : TickPlace F
  pub service : TaskPlace F

module _ {F D H : Type 0} ⦃f : Float F⦄ ⦃d : Float D⦄ ⦃c : Convert F D⦄ where
  -- A step of another thread than the two.
  abbrev pub IsOther : {policy : PolicyModel F H} {v w : World F D H} → Step policy v w → Type 0
  IsOther (tick_step now) = ⊥
  IsOther (task_step now t) = ⊥
  IsOther s = Unit

  unfoldable pub enter_tick : ℕ → Threads F D H → Threads F D H
  unfolding begin_tick
  enter_tick now v = record v { control = begin_tick now v.world.machine }

  unfoldable pub go_tick : PolicyModel F H → Threads F D H → Threads F D H
  unfolding proceed_tick
  go_tick policy v =
      let (m, p) = proceed_tick policy v.control v.world.machine in
      record v { world = record v.world { machine = m }; control = p }

  unfoldable pub enter_task : tasks.Task F → Threads F D H → Threads F D H
  unfolding store_task
  enter_task t v = record v {
    world = with_brain v.world (store_task t v.world.machine.brain);
    service = stored t;
  }

  unfoldable pub go_task : PolicyModel F H → ℕ → Threads F D H → Threads F D H
  unfolding proceed_task
  go_task policy now v =
      let (b, r, p) = proceed_task policy now v.service v.world.machine.brain v.world.machine.ros in
      record v { world = with_ros (with_brain v.world b) r; service = p }

  pub data Turn (policy : PolicyModel F H) (v : Threads F D H) : Threads F D H → Type 0 where
    enter_tick_turn : (now : ℕ) → v.control ≡ out → Turn policy v (enter_tick now v)
    go_tick_turn : Turn policy v (go_tick policy v)
    enter_task_turn : (t : tasks.Task F) → v.service ≡ ready → Turn policy v (enter_task t v)
    go_task_turn : (now : ℕ) → Turn policy v (go_task policy now v)
    other_turn :
        {w : World F D H} (s : Step policy v.world w)
        → IsOther s
        → Turn policy v (record v { world = w })

  -- The two threads between a tick and the next, and a task and the next.
  abbrev pub at_rest : World F D H → Threads F D H
  at_rest w = record { world = w; control = out; service = ready }

  -- The runs from the constructors on.
  pub data Run (policy : PolicyModel F H) (cfg : BrainConfig F) (hidden : H) (now : ℕ)
      : Threads F D H → Type 0 where
    start : Run policy cfg hidden now (at_rest (boot cfg hidden now))
    next :
        {u v : Threads F D H}
        → Run policy cfg hidden now u
        → Turn policy u v
        → Run policy cfg hidden now v
