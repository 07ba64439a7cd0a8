-- ===== src/Robot/Told.antt =====
-- What the brain shows of the tasks that it was given.
use robot_brain.Base.{
  ℕ, ◌%◌, ◌^◌, ◌==◌, ◌≡◌, ◌≢◌, refl, ◌∙◌, ◌⊎◌, inl, inr, List, [], ◌∷◌, arith, length, if_cases,
}
use robot_brain.Base.Int.{ℤ, pos}
use robot_brain.Float.{Float, Convert}
use robot_brain.Ros.{RosNode}
use robot_brain.Brain.{
  AiBrain, BrainConfig, Job, Machine, PolicyModel, RobotState, executing, standing, TaskType,
  emergency_stop, bump, new_brain,
}
use robot_brain.Brain.Tasks.{Task, task_number, process_robot_task, dispatch, accept, emergency}
use robot_brain.Brain.Inference.{Stage, compute, check_generation, commit, release_flag}
use robot_brain.System.Ticks.{Kept, Ticked, quiet, posed, queued, control_loop_step-Ticked}
use robot_brain.System.{
  World, boot, assign, tick, sense, fetch, run_compute, run_check, run_commit, run_release,
  run_finish, Step, tick_step, task_step, sense_step, start_rt_step, wake_step, start_rt, wake,
  fetch_step, compute_step, check_step, commit_step, release_step, finish_step,
}
use robot_brain.Robot.{IsOwn}

-- The type of the latest task; 0 before the first.
abbrev pub latest_type : {F : Type 0} → List (Task F) → ℤ
latest_type [] = pos 0
latest_type (t ∷ ts) = task_number t.task_type

-- EXECUTING only for a latest task that is not an emergency stop; STANDING at any time.
abbrev pub StateFits : {F : Type 0} → List (Task F) → RobotState → Type 0
StateFits [] s = s ≡ standing
StateFits (t ∷ ts) s = (s ≡ standing) ⊎ ((s ≡ executing) × (t.task_type ≢ emergency_stop))

StateFits-standing : {F : Type 0} (ts : List (Task F)) → StateFits ts standing
StateFits-standing [] = refl
StateFits-standing (t ∷ ts) = inl refl

bump-length :
    {F : Type 0} (ts : List (Task F)) (t : Task F) (g : ℕ)
    → g ≡ length ts % 2 ^ 64
    → bump g ≡ length (t ∷ ts) % 2 ^ 64
bump-length ts t g e = omega (arith, e)

module _ {F D H : Type 0} where
  -- The brain after the tasks `ts`, the latest first.
  pub record IsTold (ts : List (Task F)) (b : AiBrain F D H) : Type 0 where
    pub generation : b.task_generation ≡ length ts % 2 ^ 64
    pub reported : b.metrics.current_generation ≡ length ts % 2 ^ 64
    pub type : b.metrics.current_task_type ≡ latest_type ts
    pub state : StateFits ts b.metrics.current_state

  Kept-IsTold : (ts : List (Task F)) (a b : AiBrain F D H) → Kept a b → IsTold ts a → IsTold ts b
  Kept-IsTold ts a b k i = record {
    generation = k.generation ∙ i.generation;
    reported = k.reported ∙ i.reported;
    type = k.task_type ∙ i.type;
    state = fits k.state;
  }
    where
      fits :
          (b.metrics.current_state ≡ a.metrics.current_state) ⊎ (b.metrics.current_state ≡ standing)
          → StateFits ts b.metrics.current_state
      fits (inl e) = rw e i.state
      fits (inr e) = rw e (StateFits-standing ts)

  same-IsTold :
      (ts : List (Task F)) (a b : AiBrain F D H)
      → b.task_generation ≡ a.task_generation
      → b.metrics.current_generation ≡ a.metrics.current_generation
      → b.metrics.current_task_type ≡ a.metrics.current_task_type
      → b.metrics.current_state ≡ a.metrics.current_state
      → IsTold ts a
      → IsTold ts b
  same-IsTold ts a b g r t s i = record {
    generation = g ∙ i.generation;
    reported = r ∙ i.reported;
    type = t ∙ i.type;
    state = rw s i.state;
  }

module _ {F D H : Type 0} ⦃f : Float F⦄ ⦃d : Float D⦄ ⦃c : Convert F D⦄ where
  pub boot-IsTold :
      (cfg : BrainConfig F) (hidden : H) (now : ℕ)
      → IsTold {D = D} [] (boot {D = D} cfg hidden now).machine.brain
  unfolding boot new_brain
  boot-IsTold cfg hidden now = record {
    generation = refl;
    reported = refl;
    type = refl;
    state = refl;
  }

  Ticked-IsTold :
      (ts : List (Task F)) (m n : Machine F D H)
      → Ticked m n
      → IsTold ts m.brain
      → IsTold ts n.brain
  Ticked-IsTold ts m n (quiet {b} k) i = Kept-IsTold ts m.brain b k i
  Ticked-IsTold ts m n (posed {b} k) i = Kept-IsTold ts m.brain b k i
  Ticked-IsTold ts m n (queued {b} job e k g q) i = record {
    generation = k.generation ∙ i.generation;
    reported = k.reported ∙ i.reported;
    type = k.task_type ∙ i.type;
    state = (Kept-IsTold ts _ b k (same-IsTold ts m.brain _ refl refl refl refl i)).state;
  }

  dispatch-IsTold :
      (ts : List (Task F)) (policy : PolicyModel F H) (now : ℕ) (k : TaskType) (t : Task F)
      (b : AiBrain F D H) (r : RosNode F D)
      → t.task_type ≡ k
      → IsTold ts b
      → IsTold (t ∷ ts) (dispatch k policy now (accept t b) r).0
  unfolding dispatch emergency accept
  dispatch-IsTold ts policy now emergency_stop t b r e i = record {
    generation = bump-length ts t b.task_generation i.generation;
    reported = bump-length ts t b.task_generation i.generation;
    type = refl;
    state = inl refl;
  }
  dispatch-IsTold ts policy now _ t b r e i = record {
    generation = bump-length ts t b.task_generation i.generation;
    reported = bump-length ts t b.task_generation i.generation;
    type = refl;
    state = inr (refl, λ stop. cc);
  }

  -- A task is counted, and is the latest from then on.
  pub assign-IsTold :
      (ts : List (Task F)) (policy : PolicyModel F H) (now : ℕ) (t : Task F) (w : World F D H)
      → IsTold ts w.machine.brain
      → IsTold (t ∷ ts) (assign policy now t w).machine.brain
  unfolding assign process_robot_task
  assign-IsTold ts policy now t w i =
      dispatch-IsTold ts policy now t.task_type t w.machine.brain w.machine.ros refl i

  check-IsTold :
      (ts : List (Task F)) (job : Job F) (targets actions : List F) (w : World F D H)
      → IsTold ts w.machine.brain
      → IsTold ts (run_check job targets actions w).machine.brain
  unfolding run_check check_generation
  check-IsTold ts job targets actions w i =
      if_cases (λ (out : AiBrain F D H × Stage F). IsTold ts out.0)
        (job.my_generation == w.machine.brain.task_generation) _ _ (λ _. i)
        (λ _. same-IsTold ts w.machine.brain _ refl refl refl refl i)

  -- Everything else leaves the tasks alone, and the state too, or makes it STANDING.
  pub Own-IsTold :
      (ts : List (Task F)) {policy : PolicyModel F H} {v w : World F D H} (s : Step policy v w)
      → IsOwn s
      → IsTold ts v.machine.brain
      → IsTold ts w.machine.brain
  unfolding tick sense start_rt wake fetch run_compute compute run_commit commit run_release
      release_flag run_finish
  Own-IsTold ts {policy} {v} (tick_step now) own i =
      Ticked-IsTold ts v.machine _ (control_loop_step-Ticked policy now v.machine) i
  Own-IsTold ts (task_step now t) own i = absurd own
  Own-IsTold ts (sense_step msg) own i = i
  Own-IsTold ts (start_rt_step fifo_ok) own i = i
  Own-IsTold ts (wake_step now planned p q) own i = i
  Own-IsTold ts (fetch_step job rest idle e) own i = i
  Own-IsTold ts {v = v} (compute_step job buffer held e k) own i =
      same-IsTold ts v.machine.brain _ refl refl refl refl i
  Own-IsTold ts {v = v} (check_step job targets actions held e) own i =
      check-IsTold ts job targets actions v i
  Own-IsTold ts {v = v} (commit_step job now targets actions held e) own i =
      same-IsTold ts v.machine.brain _ refl refl refl refl i
  Own-IsTold ts {v = v} (release_step job elapsed held e) own i =
      same-IsTold ts v.machine.brain _ refl refl refl refl i
  Own-IsTold ts (finish_step job held e) own i = i
