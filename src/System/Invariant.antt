-- ===== src/System/Invariant.antt =====
-- The backpressure flag and the inference pool, over every interleaving.
pub mod Defs
pub mod Moves
pub mod Frame
pub use Defs.{bit, busy, Inv}
use robot_brain.System.Invariant.Moves.{boot-Inv, tick-Inv, dispatch-Inv, fetch-Inv}
use robot_brain.System.Invariant.Frame.{compute-Inv, check-Inv, commit-Inv, release-Inv, finish-Inv}
use robot_brain.Base.{
  ℕ, suc, ◌+◌, ◌≤◌, ◌≡◌, refl, sym, ap, ◌∙◌, Bool, true, false, Option, none, some, List, [], ◌∷◌,
  arith, length, length-append, length-set, get_or-set_self, if_cases, ◌==◌, ◌≢◌,
}
use robot_brain.Float.{Float, Convert}
use robot_brain.Ros.{RosNode}
use robot_brain.ThreadPool.{Worker, waiting, running, returned, value, create, enqueue}
use robot_brain.ThreadPool.Runs.{enqueue-some, enqueue-none_iff, take-cons, finish-running}
use robot_brain.Brain.{
  AiBrain, BrainConfig, Job, Machine, PolicyModel, TaskType, emergency_stop, new_brain,
}
use robot_brain.Brain.Tasks.{Task, process_robot_task, dispatch, accept}
use robot_brain.Brain.Inference.{
  Stage, begun, computed, admitted, over, released, compute, check_generation, commit, release_flag,
  obs_input, targets_stage,
}
use robot_brain.Brain.Observation.{build_observation}
use robot_brain.System.Ticks.{Ticked, quiet, posed, queued, control_loop_step-Ticked}
use robot_brain.System.{
  World, worker, boot, assign, tick, sense, fetch, run_compute, run_check, run_commit, run_release,
  run_finish, Step, tick_step, task_step, sense_step, start_rt_step, wake_step, start_rt, wake,
  fetch_step, compute_step, check_step, commit_step, release_step, finish_step, Reach, start, next,
  with_brain, with_ros,
}

module _ {F D H : Type 0} ⦃f : Float F⦄ ⦃d : Float D⦄ ⦃c : Convert F D⦄ where
  pub Step-Inv : {policy : PolicyModel F H} {v w : World F D H} → Step policy v w → Inv v → Inv w
  unfolding tick sense start_rt wake assign process_robot_task
  Step-Inv {policy} {v} (tick_step now) i =
      tick-Inv v _ (control_loop_step-Ticked policy now v.machine) i
  Step-Inv {policy} {v} (task_step now t) i = dispatch-Inv policy now t.task_type t v i
  Step-Inv (sense_step msg) i = record {
    flag = i.flag;
    one_worker = i.one_worker;
    room = i.room;
    begins = i.begins;
    reported = i.reported;
  }
  Step-Inv (start_rt_step fifo_ok) i = record {
    flag = i.flag;
    one_worker = i.one_worker;
    room = i.room;
    begins = i.begins;
    reported = i.reported;
  }
  Step-Inv (wake_step now planned p q) i = record {
    flag = i.flag;
    one_worker = i.one_worker;
    room = i.room;
    begins = i.begins;
    reported = i.reported;
  }
  Step-Inv {v = v} (fetch_step job rest h e) i = fetch-Inv v job rest h e i
  Step-Inv {policy} {v} (compute_step job buffer h e k) i = compute-Inv policy job buffer v h e i
  Step-Inv {v = v} (check_step job targets actions h e) i = check-Inv job targets actions v h e i
  Step-Inv {v = v} (commit_step job now targets actions h e) i =
      commit-Inv job now targets actions v h e i
  Step-Inv {v = v} (release_step job elapsed h e) i = release-Inv job elapsed v h e i
  Step-Inv {v = v} (finish_step job h e) i = finish-Inv job v h e i

  -- In every interleaving `is_inferring_` is set exactly while one inference task is queued or
  -- running and has not released it, so there is never more than one; the pool keeps its one
  -- worker and its limit of ten, a waiting worker is in no task, and the reported generation is
  -- the current one.
  pub Reach-Inv :
      {policy : PolicyModel F H} {cfg : BrainConfig F} {hidden : H} {now : ℕ} {w : World F D H}
      → Reach policy cfg hidden now w
      → Inv w
  Reach-Inv {cfg = cfg} {hidden = hidden} {now = now} start = boot-Inv cfg hidden now
  Reach-Inv (next r s) = Step-Inv s (Reach-Inv r)

  -- A frame is never lost to a full inference pool: whenever the control thread finds the flag clear,
  -- the pool accepts its task.
  pub pool_never_full :
      {policy : PolicyModel F H} {cfg : BrainConfig F} {hidden : H} {now : ℕ} {w : World F D H}
      → Reach policy cfg hidden now w
      → w.machine.brain.is_inferring ≡ false
      → (job : Job F) → enqueue w.machine.pool job ≢ none
  pool_never_full {w = w} r e job full =
      let i = Reach-Inv r in
      let k = (enqueue-none_iff w.machine.pool job).0 full in
      let z : length w.machine.pool.tasks + busy (worker w) w.stage ≡ 0 = i.flag ∙ ap bit e in
      absurd (omega (arith, k, z, i.room))
