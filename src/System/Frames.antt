-- ===== src/System/Frames.antt =====
-- The frame counters of the status stream: no frame that was submitted is lost from the count.
pub mod Defs
use robot_brain.System.Frames.Defs.{
  open_task, is_over, Conserved, submits, loses, Counted, start, next,
}
use robot_brain.Base.{
  ℕ, suc, ◌+◌, ◌-◌, ◌%◌, ◌^◌, ◌==◌, ◌≡◌, refl, ap, Option, none, some, List, [], ◌∷◌, arith, length,
  if_cases, length-append, get_or-set_self,
}
use robot_brain.Float.{Float, Convert}
use robot_brain.Ros.{RosNode}
use robot_brain.ThreadPool.{Worker, waiting, running, returned, value, create}
use robot_brain.ThreadPool.Runs.{enqueue-some, take-cons, finish-running}
use robot_brain.Brain.{
  AiBrain, BrainConfig, Job, Machine, PolicyModel, TaskType, emergency_stop, new_brain,
}
use robot_brain.Brain.Tasks.{Task, process_robot_task, dispatch, accept, emergency}
use robot_brain.Brain.Observation.{build_observation}
use robot_brain.Brain.Inference.{
  Stage, begun, computed, admitted, over, released, compute, check_generation, commit, release_flag,
  targets_stage, obs_input,
}
use robot_brain.System.Ticks.{Ticked, quiet, posed, queued, control_loop_step-Ticked}
use robot_brain.System.Invariant.{Inv, Reach-Inv}
use robot_brain.System.{
  World, worker, boot, assign, tick, sense, start_rt, wake, fetch, run_compute, run_check,
  run_commit, run_release, run_finish, Step, tick_step, task_step, sense_step, start_rt_step,
  wake_step, fetch_step, compute_step, check_step, commit_step, release_step, finish_step, Reach,
  with_brain,
}

module _ {F D H : Type 0} ⦃f : Float F⦄ ⦃d : Float D⦄ ⦃c : Convert F D⦄ where
  tick-Conserved :
      (n m : ℕ) (w : World F D H) (q : Machine F D H)
      → Ticked w.machine q
      → Conserved n m w
      → Conserved
          (n + (length q.pool.tasks - length w.machine.pool.tasks))
          m
          (record w { machine = q })
  tick-Conserved n m w q (quiet k) v = omega (arith, k.total, k.stale)
  tick-Conserved n m w q (posed k) v = omega (arith, k.total, k.stale)
  tick-Conserved n m w q (queued {b} {p} job e k g en) v =
      let (fits, shape) = enqueue-some w.machine.pool p job en in
      let more = length-append w.machine.pool.tasks (job ∷ []) in
      rw shape (omega (arith, k.total, k.stale, more))

  -- The metrics that the counters stand in.
  abbrev Same : AiBrain F D H → AiBrain F D H → Type 0
  Same b e =
      (e.metrics.total_frames ≡ b.metrics.total_frames)
      × (e.metrics.stale_frames ≡ b.metrics.stale_frames)

  dispatch-Same :
      (k : TaskType) (policy : PolicyModel F H) (now : ℕ) (t : Task F) (b : AiBrain F D H)
      (r : RosNode F D)
      → Same b (dispatch k policy now (accept t b) r).0
  unfolding dispatch accept emergency
  dispatch-Same emergency_stop policy now t b r = (refl, refl)
  dispatch-Same _ policy now t b r = (refl, refl)

  fetch-Conserved :
      (n m : ℕ) (w : World F D H) (job : Job F) (rest : List (Job F))
      → worker w ≡ waiting
      → w.machine.pool.tasks ≡ job ∷ rest
      → Inv w
      → Conserved n m w
      → Conserved n m (fetch w)
  unfolding fetch
  fetch-Conserved n m w job rest idle e i v =
      let size : length w.machine.pool.tasks ≡ suc (length rest) = ap length e in
      let held =
        get_or-set_self w.machine.pool.workers 0 (running job) returned
          (omega (arith, i.one_worker)) in
      let before : open_task (worker w) w.stage ≡ 0 = rw idle refl in
      rw (take-cons 0 w.machine.pool job rest idle e, held, i.begins idle)
        (omega (arith, v, size, before))

  compute-Conserved :
      (n m : ℕ) (policy : PolicyModel F H) (job : Job F) (buffer : List F) (w : World F D H)
      → worker w ≡ running job
      → w.stage ≡ begun
      → Conserved n m w
      → Conserved n
          (m + is_over (run_compute policy job buffer w).stage)
          (run_compute policy job buffer w)
  unfolding run_compute compute
  compute-Conserved n m policy job buffer w h e v =
      let before : open_task (worker w) w.stage ≡ 1 = rw (h, e) refl in
      split
        (policy.forward w.machine.brain.hidden
          (build_observation (obs_input job w.machine.brain) buffer)).1
        before
    where
      split :
          (actions : Option (List F))
          → open_task (worker w) w.stage ≡ 1
          → (w.machine.brain.metrics.total_frames
                + w.machine.brain.metrics.stale_frames
                + (m + is_over (targets_stage job actions w.machine.brain))
                + (length w.machine.pool.tasks
                    + open_task (worker w) (targets_stage job actions w.machine.brain)))
              % 2 ^ 64
            ≡ n % 2 ^ 64
      split none before = unfold targets_stage in rw h (omega (arith, v, before))
      split (some actions) before = unfold targets_stage in rw h (omega (arith, v, before))

  check-Conserved :
      (n m : ℕ) (job : Job F) (targets actions : List F) (w : World F D H)
      → worker w ≡ running job
      → w.stage ≡ computed targets actions
      → Conserved n m w
      → Conserved n m (run_check job targets actions w)
  unfolding run_check check_generation
  check-Conserved n m job targets actions w h e v =
      let before : open_task (worker w) w.stage ≡ 1 = rw (h, e) refl in
      if_cases
        (λ (out : AiBrain F D H × Stage F).
          Conserved n m (record (with_brain w out.0) { stage = out.1 }))
        (job.my_generation == w.machine.brain.task_generation) _ _
        (λ _. rw h (omega (arith, v, before))) (λ _. rw h (omega (arith, v, before)))

  commit-Conserved :
      (n m : ℕ) (job : Job F) (now : ℕ) (targets actions : List F) (w : World F D H)
      → worker w ≡ running job
      → w.stage ≡ admitted targets actions
      → Conserved n m w
      → Conserved n m (run_commit now targets actions w)
  unfolding run_commit commit
  commit-Conserved n m job now targets actions w h e v =
      let before : open_task (worker w) w.stage ≡ 1 = rw (h, e) refl in
      rw h (omega (arith, v, before))

  release-Conserved :
      (n m : ℕ) (job : Job F) (elapsed : D) (w : World F D H)
      → worker w ≡ running job
      → w.stage ≡ over
      → Conserved n m w
      → Conserved n m (run_release elapsed w)
  unfolding run_release release_flag
  release-Conserved n m job elapsed w h e v =
      let before : open_task (worker w) w.stage ≡ 0 = rw (h, e) refl in
      rw h (omega (arith, v, before))

  finish-Conserved :
      (n m : ℕ) (job : Job F) (w : World F D H)
      → worker w ≡ running job
      → w.stage ≡ released
      → Inv w
      → Conserved n m w
      → Conserved n m (run_finish w)
  unfolding run_finish
  finish-Conserved n m job w h e i v =
      let before : open_task (worker w) w.stage ≡ 0 = rw (h, e) refl in
      let held =
        get_or-set_self w.machine.pool.workers 0 waiting returned (omega (arith, i.one_worker)) in
      rw (finish-running 0 value w.machine.pool job h, held) (omega (arith, v, before))

  Step-Conserved :
      (n m : ℕ) {policy : PolicyModel F H} {v w : World F D H} (s : Step policy v w)
      → Inv v
      → Conserved n m v
      → Conserved (n + submits s) (m + loses s) w
  unfolding tick assign process_robot_task sense start_rt wake
  Step-Conserved n m {policy} {v} (tick_step now) i e =
      omega (arith, tick-Conserved n m v _ (control_loop_step-Ticked policy now v.machine) e)
  Step-Conserved n m {policy} {v} (task_step now t) i e =
      omega (arith, e, dispatch-Same t.task_type policy now t v.machine.brain v.machine.ros)
  Step-Conserved n m (sense_step msg) i e = omega (arith, e)
  Step-Conserved n m (start_rt_step fifo_ok) i e = omega (arith, e)
  Step-Conserved n m (wake_step now planned p q) i e = omega (arith, e)
  Step-Conserved n m {v = v} (fetch_step job rest h e) i c =
      omega (arith, fetch-Conserved n m v job rest h e i c)
  Step-Conserved n m {policy} {v} (compute_step job buffer h e k) i c =
      omega (arith, compute-Conserved n m policy job buffer v h e c)
  Step-Conserved n m {v = v} (check_step job targets actions h e) i c =
      omega (arith, check-Conserved n m job targets actions v h e c)
  Step-Conserved n m {v = v} (commit_step job now targets actions h e) i c =
      omega (arith, commit-Conserved n m job now targets actions v h e c)
  Step-Conserved n m {v = v} (release_step job elapsed h e) i c =
      omega (arith, release-Conserved n m job elapsed v h e c)
  Step-Conserved n m {v = v} (finish_step job h e) i c =
      omega (arith, finish-Conserved n m job v h e i c)

  Counted-Reach :
      {policy : PolicyModel F H} {cfg : BrainConfig F} {hidden : H} {now n m : ℕ} {w : World F D H}
      → Counted policy cfg hidden now n m w
      → Reach policy cfg hidden now w
  Counted-Reach start = Reach.start
  Counted-Reach (next r s) = Reach.next (Counted-Reach r) s

  -- In every interleaving the frames that were submitted are those that were published, those dropped
  -- as stale, those whose policy threw, and those queued or under way; up to the wrap-around of the
  -- 64-bit counters.
  pub frames-Conserved :
      {policy : PolicyModel F H} {cfg : BrainConfig F} {hidden : H} {now n m : ℕ} {w : World F D H}
      → Counted policy cfg hidden now n m w
      → Conserved n m w
  unfolding boot new_brain create
  frames-Conserved start = refl
  frames-Conserved (next {n} {m} r s) =
      Step-Conserved n m s (Reach-Inv (Counted-Reach r)) (frames-Conserved r)
