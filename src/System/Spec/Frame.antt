-- ===== src/System/Spec/Frame.antt =====
-- The steps of an inference task as moves of the specification.
use robot_brain.Base.{
  ℕ, ◌==◌, ◌≡◌, refl, Option, none, some, List, [], ◌∷◌, arith, get_or, if_cases, set,
  get_or-set_self,
}
use robot_brain.Float.{Float, Convert}
use robot_brain.ThreadPool.{waiting, running, returned, value}
use robot_brain.ThreadPool.Runs.{finish-running}
use robot_brain.Brain.{AiBrain, Job, PolicyModel}
use robot_brain.Brain.Observation.{build_observation}
use robot_brain.Brain.Inference.{
  Stage, begun, computed, admitted, over, released, compute, check_generation, commit, release_flag,
  targets_stage, obs_input,
}
use robot_brain.System.Invariant.{Inv}
use robot_brain.System.Invariant.Defs.{busy}
use robot_brain.System.Spec.{computing, Move, stay, pass, lose, publish, release, flight_of, view}
use robot_brain.System.{
  World, worker, run_compute, run_check, run_commit, run_release, run_finish, with_brain,
}
use robot_brain.System.Spec.Slot.{moves_to, alone}

module _ {F D H : Type 0} ⦃f : Float F⦄ ⦃d : Float D⦄ ⦃c : Convert F D⦄ where
  -- The pool is empty while the worker is in a frame.
  pub in_frame :
      (w : World F D H) (job : Job F) (s : Stage F)
      → worker w ≡ running job
      → w.stage ≡ s
      → busy (running job) s ≡ 1
      → Inv w
      → w.machine.pool.tasks ≡ []
  in_frame w job s h e b i =
      let now_busy : busy (worker w) w.stage ≡ 1 = rw (h, e) b in
      alone w.machine.pool.tasks (worker w) w.stage w.machine.brain.is_inferring i.flag now_busy

  pub compute-Move :
      (policy : PolicyModel F H) (job : Job F) (buffer : List F) (w : World F D H)
      → worker w ≡ running job
      → w.stage ≡ begun
      → Inv w
      → Move (view w) (view (run_compute policy job buffer w))
  unfolding run_compute compute
  compute-Move policy job buffer w h e i =
      split
        (policy.forward w.machine.brain.hidden
          (build_observation (obs_input job w.machine.brain) buffer)).1
        (in_frame w job begun h e refl i)
    where
      split :
          (actions : Option (List F))
          → w.machine.pool.tasks ≡ []
          → Move (view w) (record {
            generation = w.machine.brain.task_generation;
            frames = w.machine.brain.metrics.total_frames;
            flight =
                flight_of w.machine.pool.tasks
                  (worker w)
                  (targets_stage job actions w.machine.brain);
          })
      split none empty =
          unfold targets_stage in
          moves_to _ (lose job.my_generation (rw (empty, h, e) refl)) refl refl (rw (empty, h) refl)
      split (some actions) empty =
          unfold targets_stage in moves_to _ stay refl refl (rw (empty, h, e) refl)

  pub check-Move :
      (job : Job F) (targets actions : List F) (w : World F D H)
      → worker w ≡ running job
      → w.stage ≡ computed targets actions
      → Inv w
      → Move (view w) (view (run_check job targets actions w))
  unfolding run_check check_generation
  check-Move job targets actions w h e i =
      let empty = in_frame w job (computed targets actions) h e refl i in
      let at : (view w).flight ≡ computing job.my_generation = rw (empty, h, e) refl in
      if_cases
        (λ (out : AiBrain F D H × Stage F).
          Move (view w) (view (record (with_brain w out.0) { stage = out.1 })))
        (job.my_generation == w.machine.brain.task_generation) _ _
        (λ same.
          moves_to _ (pass job.my_generation at (ground (arith, same))) refl refl
            (rw (empty, h) refl))
        (λ _. moves_to _ (lose job.my_generation at) refl refl (rw (empty, h) refl))

  pub commit-Move :
      (job : Job F) (now : ℕ) (targets actions : List F) (w : World F D H)
      → worker w ≡ running job
      → w.stage ≡ admitted targets actions
      → Inv w
      → Move (view w) (view (run_commit now targets actions w))
  unfolding run_commit commit
  commit-Move job now targets actions w h e i =
      let empty = in_frame w job (admitted targets actions) h e refl i in
      moves_to _ (publish job.my_generation (rw (empty, h, e) refl)) refl refl (rw (empty, h) refl)

  pub release-Move :
      (job : Job F) (elapsed : D) (w : World F D H)
      → worker w ≡ running job
      → w.stage ≡ over
      → Inv w
      → Move (view w) (view (run_release elapsed w))
  unfolding run_release release_flag
  release-Move job elapsed w h e i =
      let empty = in_frame w job over h e refl i in
      moves_to _ (release (rw (empty, h, e) refl)) refl refl (rw (empty, h) refl)

  pub finish-Move :
      (job : Job F) (w : World F D H)
      → worker w ≡ running job
      → w.stage ≡ released
      → Inv w
      → Move (view w) (view (run_finish w))
  unfolding run_finish
  finish-Move job w h e i =
      let held =
        get_or-set_self w.machine.pool.workers 0 waiting returned (omega (arith, i.one_worker)) in
      rw (finish-running 0 value w.machine.pool job h)
        (moves_to _ stay refl refl (settled w.machine.pool.tasks held))
    where
      settled :
          (tasks : List (Job F))
          → get_or (set w.machine.pool.workers 0 waiting) 0 returned ≡ waiting
          → flight_of tasks (worker w) w.stage
            ≡ flight_of tasks (get_or (set w.machine.pool.workers 0 waiting) 0 returned) begun
      settled [] held = rw (held, h, e) refl
      settled (x ∷ tasks) held = refl
