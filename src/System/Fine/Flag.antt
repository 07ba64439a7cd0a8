-- ===== src/System/Fine/Flag.antt =====
-- What `is_inferring_` stands for between the steps of a tick.
use robot_brain.Base.{if◌then◌else◌, ℕ, ◌+◌, ◌≡◌, refl, ap, ◌∙◌, Bool, true, false, arith, length}
use robot_brain.Float.{Float, Convert}
use robot_brain.Brain.{BrainConfig, PolicyModel, TaskType, emergency_stop}
use robot_brain.System.{World, worker, Step, with_brain, with_ros, boot}
use robot_brain.System.Invariant.{bit, busy, Inv, Step-Inv, Reach-Inv}
use robot_brain.System as system
use robot_brain.Brain.Tasks as tasks
use robot_brain.System.Fine.Tick.{TickPlace, out, begin_tick}
use robot_brain.System.Fine.Task.{
  TaskPlace, ready, stored, counted, shown, stood, cleared, posed, going, store_task, proceed_task,
  branch,
}
use robot_brain.System.Fine.Shadow.{
  is_holding, is_counted, shadow, other-shadow, other-generation, other-flag,
}
use robot_brain.System.Fine.{
  Threads, IsOther, Turn, enter_tick_turn, go_tick_turn, enter_task_turn, go_task_turn, other_turn,
  start, next, enter_tick, go_tick, enter_task, go_task, Run,
}
use robot_brain.System.Fine.Held.{Held, IsCounted-same, kept-Held, told-Held}
use robot_brain.System.Fine.TickFlag.{tick-Held}

module _ {F D H : Type 0} ⦃f : Float F⦄ ⦃d : Float D⦄ ⦃c : Convert F D⦄ where
  branch-Held :
      (k : TaskType) (t : tasks.Task F) (w : World F D H) (p : TickPlace F)
      → Held w p (shown t)
      → let (b, q) = branch k w.machine.brain in Held (with_brain w b) p q
  branch-Held emergency_stop t w p v = told-Held w p _ _ _ _ refl refl refl refl tt v
  branch-Held _ t w p v = told-Held w p _ _ _ _ refl refl refl refl tt v

  task-Held :
      (policy : PolicyModel F H) (now : ℕ) (w : World F D H) (p : TickPlace F) (q : TaskPlace F)
      → Held w p q
      → let (b, r, q₁) = proceed_task policy now q w.machine.brain w.machine.ros in
        Held (with_ros (with_brain w b) r) p q₁
  unfolding proceed_task
  task-Held policy now w p ready v = v
  task-Held policy now w p (stored t) v = record {
    inv = record {
      flag = v.inv.flag;
      one_worker = v.inv.one_worker;
      room = v.inv.room;
      begins = v.inv.begins;
      reported = refl;
    };
    won = v.won;
    gen = refl;
  }
  task-Held policy now w p (counted t gen) v = record {
    inv = record {
      flag = v.inv.flag;
      one_worker = v.inv.one_worker;
      room = v.inv.room;
      begins = v.inv.begins;
      reported = v.gen;
    };
    won = v.won;
    gen = tt;
  }
  task-Held policy now w p (shown t) v = branch-Held t.task_type t w p v
  task-Held policy now w p stood v = told-Held w p _ _ _ _ refl refl refl refl tt v
  task-Held policy now w p cleared v = told-Held w p _ _ _ _ refl refl refl refl tt v
  task-Held policy now w p posed v = told-Held w p _ _ _ _ refl refl refl refl tt v
  task-Held policy now w p going v = told-Held w p _ _ _ _ refl refl refl refl tt v

  other-Held :
      {policy : PolicyModel F H} {v w : World F D H} (p : TickPlace F) (q : TaskPlace F)
      (s : Step policy v w)
      → IsOther s
      → Held v p q
      → Held w p q
  other-Held {v = v} {w = w} p q s o i = record {
    inv = Step-Inv (other-shadow (is_holding p) (is_counted q) s o) i.inv;
    won = λ e.
        let here : Inv (shadow true (is_counted q) v) = rw e at i.inv in
        other-flag (is_counted q) s o here ∙ i.won e;
    gen = IsCounted-same q v.machine.brain w.machine.brain (other-generation s o) i.gen;
  }

  Turn-Held :
      {policy : PolicyModel F H} {u v : Threads F D H}
      → Turn policy u v
      → Held u.world u.control u.service
      → Held v.world v.control v.service
  unfolding enter_tick begin_tick go_tick enter_task store_task go_task
  Turn-Held {u = u} (enter_tick_turn now e) i =
      let h : Held u.world out u.service = rw e at i in
      kept-Held u.world out _ u.service u.world.machine.brain u.world.machine.ros refl refl refl
        refl h
  Turn-Held {policy} {u} go_tick_turn i = tick-Held policy u.world u.control u.service i
  Turn-Held {u = u} (enter_task_turn t e) i =
      let h : Held u.world u.control ready = rw e at i in
      told-Held u.world u.control ready _ _ u.world.machine.ros refl refl refl refl tt h
  Turn-Held {policy} {u} (go_task_turn now) i = task-Held policy now u.world u.control u.service i
  Turn-Held {u = u} (other_turn s o) i = other-Held u.control u.service s o i

  pub Run-Held :
      {policy : PolicyModel F H} {cfg : BrainConfig F} {hidden : H} {now : ℕ} {v : Threads F D H}
      → Run policy cfg hidden now v
      → Held v.world v.control v.service
  Run-Held {policy} {cfg} {hidden} {now} start =
      let first : system.Reach policy cfg hidden now (boot cfg hidden now) = system.start in
      record { inv = Reach-Inv first; won = λ k. absurd (cc); gen = tt }
  Run-Held (next r s) = Turn-Held s (Run-Held r)

  -- What the flag stands for at each moment, and who may still report another generation.
  pub record IsOneFrame (v : Threads F D H) : Type 0 where
    pub flag :
        length v.world.machine.pool.tasks
          + busy (worker v.world) v.world.stage
          + bit (is_holding v.control)
        ≡ bit v.world.machine.brain.is_inferring
    pub reported :
        is_counted v.service ≡ false
        → v.world.machine.brain.metrics.current_generation ≡ v.world.machine.brain.task_generation

  -- Also where ticks, tasks and inference meet in the middle of one another: `is_inferring_` is set
  -- exactly while one frame is between the tick that won it and its release, be it with the tick, in the
  -- queue or with the worker; and the reported generation is the current one but for the moment after
  -- the gRPC thread has counted a task.
  pub Run-IsOneFrame :
      {policy : PolicyModel F H} {cfg : BrainConfig F} {hidden : H} {now : ℕ} {v : Threads F D H}
      → Run policy cfg hidden now v
      → IsOneFrame v
  Run-IsOneFrame {v = v} r =
      let i = Run-Held r in
      record {
        flag = flag (is_holding v.control) _ _ i.inv.flag i.won;
        reported = λ e. (rw e at i.inv.reported);
      }
    where
      flag :
          (h b : Bool) (n : ℕ)
          → n ≡ bit (if h then false else b)
          → (h ≡ true → b ≡ true)
          → n + bit h ≡ bit b
      flag true b n e k = let set : bit b ≡ 1 = ap bit (k refl) in omega (arith, e, set)
      flag false b n e k = omega (arith, e)
