-- ===== src/System/Preemption.antt =====
-- Task generations: what a new task does to an inference task that is under way.
use mathlib.Core.Path.{subst}
use robot_brain.Base.{
  Option, none, some, ℕ, suc, ◌+◌, ◌%◌, ◌^◌, ◌≤◌, ◌<◌, ◌≡◌, ◌≢◌, refl, ap, ◌∙◌, List, [], ◌∷◌, ◌++◌,
  map, All, arith, ◌==◌, if_cases,
}
use robot_brain.Float.{Float, Convert}
use robot_brain.ThreadPool.{running}
use robot_brain.Ros.{publish_joint_command}
use robot_brain.Ros.Cache.{receive, joint_state, imu}
use robot_brain.Brain.{AiBrain, Job, Machine, PolicyModel, TaskType, emergency_stop}
use robot_brain.Brain.Tasks.{Task, process_robot_task, dispatch, accept}
use robot_brain.Brain.Inference.{
  Stage, admitted, compute, check_generation, commit, release_flag, targets_stage,
}
use robot_brain.System.Ticks.{Ticked, quiet, posed, queued, control_loop_step-Ticked}
use robot_brain.System.{
  World, worker, assign, tick, sense, fetch, run_compute, run_check, run_commit, run_release,
  run_finish, Step, tick_step, task_step, sense_step, start_rt_step, wake_step, start_rt, wake,
  fetch_step, compute_step, check_step, commit_step, release_step, finish_step, with_brain,
  with_ros,
}

abbrev pub NotAdmitted : {F : Type 0} → Stage F → Type 0
NotAdmitted (admitted targets actions) = ⊥
NotAdmitted s = Unit

targets_stage-NotAdmitted :
    {F D H : Type 0} ⦃f : Float F⦄ (job : Job F) (actions : Option (List F)) (b : AiBrain F D H)
    → NotAdmitted (targets_stage job actions b)
unfolding targets_stage
targets_stage-NotAdmitted job none b = tt
targets_stage-NotAdmitted job (some a) b = tt

module _ {F D H : Type 0} ⦃f : Float F⦄ ⦃d : Float D⦄ ⦃c : Convert F D⦄ where
  -- Counts the tasks assigned.
  abbrev pub counted : {policy : PolicyModel F H} {v w : World F D H} → Step policy v w → ℕ → ℕ
  counted (task_step now t) n = suc n
  counted _ n = n

  -- A run from `w` through which the worker stays in the task `job`, with the number of tasks that
  -- were assigned since `job` was made: `k` at `w`.
  pub data During (policy : PolicyModel F H) (job : Job F) (w : World F D H) (k : ℕ)
      : ℕ → World F D H → Type 0 where
    here : During policy job w k k w
    more :
        {n : ℕ} {u v : World F D H}
        → During policy job w k n u
        → (s : Step policy u v) → worker v ≡ running job
        → During policy job w k (counted s n) v

  -- Only the default posture was published since `w`.
  abbrev pub OnlyPose : World F D H → World F D H → Type 0
  OnlyPose w v =
      (msgs : List (List D)) × (v.machine.ros.published ≡ msgs ++ w.machine.ros.published)
      × All (λ m. m ≡ map c.widen w.machine.brain.default_joint_positions) msgs

  record IsStale (job : Job F) (k : ℕ) (w v : World F D H) : Type 0 where
    runs : worker v ≡ running job
    waits : NotAdmitted v.stage
    generation : v.machine.brain.task_generation ≡ (job.my_generation + k) % 2 ^ 64
    config : v.machine.brain.config ≡ w.machine.brain.config
    sent : OnlyPose w v

  module _ (policy : PolicyModel F H) (job : Job F) (w : World F D H) where
    abbrev Next : ℕ → World F D H → World F D H → Type 0
    Next k u v =
        NotAdmitted v.stage
        × (v.machine.brain.task_generation ≡ (job.my_generation + k) % 2 ^ 64)
        × (v.machine.brain.config ≡ w.machine.brain.config)
        × OnlyPose w v

    tick-Next :
        (k : ℕ) (u : World F D H) (m : Machine F D H)
        → Ticked u.machine m
        → IsStale job k w u
        → Next k u (record u { machine = m })
    unfolding publish_joint_command
    tick-Next k u m (quiet kept) s =
        (s.waits, kept.generation ∙ s.generation, kept.config ∙ s.config, s.sent)
    tick-Next k u m (posed {b} kept) s =
        let (msgs, out, all) = s.sent in
        let same = kept.config ∙ s.config in
        (
          s.waits,
          kept.generation ∙ s.generation,
          same,
          (
            map c.widen b.default_joint_positions ∷ msgs,
            ap (λ x. map c.widen b.default_joint_positions ∷ x) out,
            (ap (λ g. map c.widen g.default_joint_positions) same, all),
          ),
        )
    tick-Next k u m (queued _ e kept g q) s =
        (s.waits, kept.generation ∙ s.generation, kept.config ∙ s.config, s.sent)

    dispatch-Next :
        (k : ℕ) (u : World F D H) (now : ℕ) (t : Task F) (kind : TaskType)
        → IsStale job k w u
        → let (b, r) = dispatch kind policy now (accept t u.machine.brain) u.machine.ros in
          Next (suc k) u (with_ros (with_brain u b) r)
    unfolding dispatch accept publish_joint_command
    dispatch-Next k u now t emergency_stop s =
        let (msgs, out, all) = s.sent in
        (
          s.waits,
          omega (arith, s.generation),
          s.config,
          (
            map c.widen u.machine.brain.default_joint_positions ∷ msgs,
            ap (λ x. map c.widen u.machine.brain.default_joint_positions ∷ x) out,
            (ap (λ g. map c.widen g.default_joint_positions) s.config, all),
          ),
        )
    dispatch-Next k u now t _ s = (s.waits, omega (arith, s.generation), s.config, s.sent)

    -- With fewer than 2^64 tasks since, the generations still differ.
    check-Next :
        (k : ℕ) (u : World F D H) (targets actions : List F)
        → job.my_generation < 2 ^ 64
        → 0 < k
        → k < 2 ^ 64
        → IsStale job k w u
        → Next k u (run_check job targets actions u)
    unfolding run_check check_generation
    check-Next k u targets actions fits lo hi s =
        if_cases
          (λ (out : AiBrain F D H × Stage F).
            Next k u (record (with_brain u out.0) { stage = out.1 }))
          (job.my_generation == u.machine.brain.task_generation) _ _
          (λ same. absurd (differ (ground (arith, same))))
          (λ _. (tt, s.generation, s.config, s.sent))
      where
        differ : job.my_generation ≢ u.machine.brain.task_generation
        differ e = omega (arith, s.generation)

    compute-Next :
        (k : ℕ) (u : World F D H) (j : Job F) (buffer : List F)
        → IsStale job k w u
        → Next k u (run_compute policy j buffer u)
    unfolding run_compute compute targets_stage
    compute-Next k u j buffer s =
        (targets_stage-NotAdmitted j _ u.machine.brain, s.generation, s.config, s.sent)

    Step-Next :
        (k : ℕ) {u v : World F D H} (s : Step policy u v)
        → job.my_generation < 2 ^ 64
        → 0 < k
        → k < 2 ^ 64
        → IsStale job k w u
        → Next (counted s k) u v
    unfolding tick assign process_robot_task sense start_rt wake receive fetch run_commit commit
        run_release release_flag run_finish
    Step-Next k {u} (tick_step now) fits lo hi st =
        tick-Next k u _ (control_loop_step-Ticked policy now u.machine) st
    Step-Next k {u} (task_step now t) fits lo hi st = dispatch-Next k u now t t.task_type st
    Step-Next k (sense_step (joint_state m)) fits lo hi st =
        (st.waits, st.generation, st.config, st.sent)
    Step-Next k (sense_step (imu m)) fits lo hi st = (st.waits, st.generation, st.config, st.sent)
    Step-Next k (start_rt_step fifo_ok) fits lo hi st =
        (st.waits, st.generation, st.config, st.sent)
    Step-Next k (wake_step now planned p q) fits lo hi st =
        (st.waits, st.generation, st.config, st.sent)
    Step-Next k (fetch_step j rest h e) fits lo hi st =
        (st.waits, st.generation, st.config, st.sent)
    Step-Next k {u} (compute_step j buffer h e z) fits lo hi st = compute-Next k u j buffer st
    Step-Next k {u} (check_step j targets actions h e) fits lo hi st =
        let same : job ≡ j = cc (st.runs, h) in
        subst (λ x. Next k u (run_check x targets actions u)) same
          (check-Next k u targets actions fits lo hi st)
    Step-Next k {u} (commit_step j now targets actions h e) fits lo hi st =
        absurd (subst NotAdmitted e st.waits)
    Step-Next k (release_step j elapsed h e) fits lo hi st = (tt, st.generation, st.config, st.sent)
    Step-Next k (finish_step j h e) fits lo hi st = (tt, st.generation, st.config, st.sent)

  counted-le :
      {policy : PolicyModel F H} {v w : World F D H} (s : Step policy v w) (n : ℕ)
      → (n ≤ counted s n) × (counted s n ≤ suc n)
  counted-le (task_step now t) n = omega arith
  counted-le _ n = omega arith

  During-le :
      {policy : PolicyModel F H} {job : Job F} {w : World F D H} {k n : ℕ} {v : World F D H}
      → During policy job w k n v
      → k ≤ n
  During-le {n = n} here = omega arith
  During-le (more {n = m} r s h) = omega (arith, During-le r, counted-le s m)

  During-IsStale :
      {policy : PolicyModel F H} {job : Job F} {w : World F D H} {k n : ℕ} {v : World F D H}
      → During policy job w k n v
      → job.my_generation < 2 ^ 64
      → 0 < k
      → n < 2 ^ 64
      → IsStale job k w w
      → IsStale job n w v
  During-IsStale here fits lo hi st = st
  During-IsStale {policy} {job} {w} (more {n = m} {u} r s h) fits lo hi st =
      let size = counted-le s m in
      let (waits, generation, config, sent) =
        Step-Next policy job w m s fits (omega (arith, During-le r)) (omega (arith, size))
          (During-IsStale r fits lo (omega (arith, size)) st) in
      record { runs = h; waits = waits; generation = generation; config = config; sent = sent }

  -- Take a state where the worker is in an inference task that has not yet passed its comparison,
  -- and `k` > 0 tasks were assigned since that task was made. Whatever the threads do from there
  -- while the worker stays in that task, nothing but the default posture is published: the stale
  -- result is dropped. From the making of the task to the end of the run fewer than 2^64 tasks
  -- are assigned.
  pub stale_result_dropped :
      (policy : PolicyModel F H) (job : Job F) (w v : World F D H) (k n : ℕ)
      → During policy job w k n v
      → worker w ≡ running job
      → NotAdmitted w.stage
      → job.my_generation < 2 ^ 64
      → w.machine.brain.task_generation ≡ (job.my_generation + k) % 2 ^ 64
      → 0 < k
      → n < 2 ^ 64
      → OnlyPose w v
  stale_result_dropped policy job w v k n r h a fits g lo hi =
      (During-IsStale r fits lo hi
        (record { runs = h; waits = a; generation = g; config = refl; sent = ([], refl, tt) })).sent
