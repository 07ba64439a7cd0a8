-- ===== src/System/Progress/Work.antt =====
-- The inference worker as a function: its next step, wherever it is.
use robot_brain.Base.{ℕ, List, [], ◌∷◌}
use robot_brain.Float.{Float, Convert}
use robot_brain.ThreadPool.{Worker, waiting, running, returned}
use robot_brain.Brain.{Job, PolicyModel}
use robot_brain.Brain.Inference.{Stage, begun, computed, admitted, over, released}
use robot_brain.System.{
  World, worker, fetch, run_compute, run_check, run_commit, run_release, run_finish,
}

-- What the worker is given from outside in a step: what the buffer holds, and two readings of the clock.
pub record Moment (F D : Type 0) : Type 0 where
  pub buffer : List F
  pub now : ℕ
  pub elapsed_ms : D

module _ {F D H : Type 0} ⦃f : Float F⦄ ⦃d : Float D⦄ ⦃c : Convert F D⦄ where
  -- The next step of the worker in a task.
  unfoldable pub work_in :
      PolicyModel F H → Moment F D → Job F → Stage F → World F D H → World F D H
  unfolding run_compute run_check run_commit run_release run_finish
  work_in policy x job begun w = run_compute policy job x.buffer w
  work_in policy x job (computed targets actions) w = run_check job targets actions w
  work_in policy x job (admitted targets actions) w = run_commit x.now targets actions w
  work_in policy x job over w = run_release x.elapsed_ms w
  work_in policy x job released w = run_finish w

  unfoldable pub work_at :
      PolicyModel F H
      → Moment F D
      → Worker (Job F)
      → List (Job F)
      → Stage F
      → World F D H
      → World F D H
  unfolding work_in fetch
  work_at policy x (running job) tasks s w = work_in policy x job s w
  work_at policy x waiting (job ∷ rest) s w = fetch w
  work_at policy x waiting [] s w = w
  work_at policy x returned tasks s w = w

  -- The next step of the worker, wherever it is; it sleeps while the queue is empty.
  unfoldable pub work : PolicyModel F H → Moment F D → World F D H → World F D H
  unfolding work_at
  work policy x w = work_at policy x (worker w) w.machine.pool.tasks w.stage w

  -- The steps of the worker, the latest first.
  unfoldable pub works : PolicyModel F H → List (Moment F D) → World F D H → World F D H
  unfolding work
  works policy [] w = w
  works policy (x ∷ earlier) w = work policy x (works policy earlier w)
