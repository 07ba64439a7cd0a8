-- ===== src/System/Progress.antt =====
-- The inference worker by itself: how its steps bring a frame to its end.
pub mod Work
pub mod Count
use robot_brain.Base.{
  ℕ, zero, suc, ◌+◌, ◌-◌, ◌≤◌, ◌≡◌, ◌≢◌, refl, sym, ap, ◌∙◌, Bool, true, false, Option, none, some,
  List, [], ◌∷◌, length, arith, get_or, get_or-set_self, ◌⊎◌, inl, inr, if_cases, ◌==◌,
}
use robot_brain.Float.{Float, Convert}
use robot_brain.ThreadPool.{Worker, waiting, running, returned, value, create}
use robot_brain.ThreadPool.Runs.{take-cons, finish-running}
use robot_brain.Brain.{
  AiBrain, BrainConfig, Job, Machine, PolicyModel, TaskType, emergency_stop, new_brain,
}
use robot_brain.Brain.Inference.{
  Stage, begun, computed, admitted, over, released, compute, check_generation, targets_stage,
  obs_input,
}
use robot_brain.Brain.Tasks.{process_robot_task}
use robot_brain.System.Ticks.{Ticked, quiet, posed, queued, control_loop_step-Ticked}
use robot_brain.ThreadPool.Runs.{enqueue-some}
use robot_brain.System.{
  World, worker, boot, tick, assign, sense, start_rt, wake, fetch, run_compute, run_check,
  run_commit, run_release, run_finish, Step, tick_step, task_step, sense_step, start_rt_step,
  wake_step, fetch_step, compute_step, check_step, commit_step, release_step, finish_step, Reach,
  start, next,
}
use robot_brain.System.Invariant.{bit, busy, Inv, Step-Inv, Reach-Inv}
use robot_brain.System.Invariant.Defs.{bit_le}
use robot_brain.System.Invariant.Moves.{fetch-Inv}
use robot_brain.System.Invariant.Frame.{compute-Inv, check-Inv, commit-Inv, release-Inv, finish-Inv}
use robot_brain.System.Progress.Work.{Moment, work_in, work_at, work, works}
use robot_brain.System.Progress.Count.{
  steps_in, steps_left, IsAtWork, steps_left_le, idle_of_none, steps_in-targets_stage,
}

module _ {F D H : Type 0} where
  -- At most `n` steps are left in a world that meets the invariant.
  pub record IsNear (n : ℕ) (w : World F D H) : Type 0 where
    pub inv : Inv w
    pub at_work : IsAtWork (worker w)
    pub near : steps_left (worker w) w.machine.pool.tasks w.stage ≤ n

module _ {F D H : Type 0} ⦃f : Float F⦄ ⦃d : Float D⦄ ⦃c : Convert F D⦄ where
  -- The pool of a step that leaves it alone.
  in_place :
      (v w : World F D H) (job : Job F) (n : ℕ)
      → worker v ≡ running job
      → w.machine.pool ≡ v.machine.pool
      → Inv w
      → steps_in w.machine.pool.tasks w.stage ≤ n
      → IsNear n w
  in_place v w job n h same i l =
      let here : worker w ≡ running job = ap (λ p. get_or p.workers 0 returned) same ∙ h in
      record { inv = i; at_work = rw here tt; near = rw here l }

  finish-waiting :
      (job : Job F) (w : World F D H)
      → worker w ≡ running job
      → Inv w
      → worker (run_finish w) ≡ waiting
  unfolding run_finish
  finish-waiting job w h i =
      rw (finish-running 0 value w.machine.pool job h)
        (get_or-set_self w.machine.pool.workers 0 waiting returned (omega (arith, i.one_worker)))

  finish-tasks :
      (job : Job F) (w : World F D H)
      → worker w ≡ running job
      → (run_finish w).machine.pool.tasks ≡ w.machine.pool.tasks
  unfolding run_finish
  finish-tasks job w h = rw (finish-running 0 value w.machine.pool job h) refl

  pub work_in-IsNear :
      (policy : PolicyModel F H) (x : Moment F D) (job : Job F) (s : Stage F) (w : World F D H)
      → worker w ≡ running job
      → w.stage ≡ s
      → Inv w
      → IsNear (steps_in w.machine.pool.tasks s - 1) (work_in policy x job s w)
  unfolding work_in run_compute compute run_check check_generation run_commit run_release
  work_in-IsNear policy x job begun w h e i =
      in_place w _ job 3 h refl (compute-Inv policy job x.buffer w h e i)
        (steps_in-targets_stage w.machine.pool.tasks job _ w.machine.brain)
  work_in-IsNear policy x job (computed targets actions) w h e i =
      in_place w _ job 2 h refl (check-Inv job targets actions w h e i) (
        if_cases (λ (out : AiBrain F D H × Stage F). steps_in w.machine.pool.tasks out.1 ≤ 2)
          (job.my_generation == w.machine.brain.task_generation) _ _ (λ _. omega arith)
          (λ _. omega arith))
  work_in-IsNear policy x job (admitted targets actions) w h e i =
      in_place w _ job 1 h refl (commit-Inv job x.now targets actions w h e i) (omega arith)
  work_in-IsNear policy x job over w h e i =
      let total : length w.machine.pool.tasks + 1 ≡ bit w.machine.brain.is_inferring =
        rw (h, e) at i.flag in
      let empty : w.machine.pool.tasks ≡ [] =
        nil_of_length w.machine.pool.tasks
          (omega (arith, total, bit_le w.machine.brain.is_inferring)) in
      in_place w _ job 0 h refl (release-Inv job x.elapsed_ms w h e i) (rw empty (omega arith))
    where
      nil_of_length : (ts : List (Job F)) → length ts ≡ 0 → ts ≡ []
      nil_of_length [] k = refl
      nil_of_length (t ∷ ts) k = absurd (omega (arith, k))
  work_in-IsNear policy x job released w h e i =
      let at_rest = finish-waiting job w h i in
      record {
        inv = finish-Inv job w h e i;
        at_work = rw at_rest tt;
        near = rw (at_rest, finish-tasks job w h) (near_waiting w.machine.pool.tasks);
      }
    where
      near_waiting : (ts : List (Job F)) → steps_left waiting ts begun ≤ steps_in ts released - 1
      near_waiting [] = omega arith
      near_waiting (t ∷ ts) = omega arith

  fetch-running :
      (w : World F D H) (job : Job F) (rest : List (Job F))
      → worker w ≡ waiting
      → w.machine.pool.tasks ≡ job ∷ rest
      → Inv w
      → (worker (fetch w) ≡ running job) × ((fetch w).stage ≡ begun)
  unfolding fetch
  fetch-running w job rest h e i = rw (take-cons 0 w.machine.pool job rest h e) (
    get_or-set_self w.machine.pool.workers 0 (running job) returned (omega (arith, i.one_worker)),
    i.begins h,
  )

  pub work_at-IsNear :
      (policy : PolicyModel F H) (x : Moment F D) (k : Worker (Job F)) (ts : List (Job F))
      (w : World F D H)
      → worker w ≡ k
      → w.machine.pool.tasks ≡ ts
      → Inv w
      → IsAtWork k
      → IsNear (steps_left k ts w.stage - 1) (work_at policy x k ts w.stage w)
  unfolding work_at
  work_at-IsNear policy x (running job) ts w h e i a =
      rw (← e) (work_in-IsNear policy x job w.stage w h refl i)
  work_at-IsNear policy x waiting [] w h e i a = record {
    inv = i;
    at_work = rw h tt;
    near = rw (h, e) (omega arith);
  }
  work_at-IsNear policy x waiting (job ∷ rest) w h e i a =
      let (busy_now, from_start) = fetch-running w job rest h e i in
      record {
        inv = fetch-Inv w job rest h e i;
        at_work = rw busy_now tt;
        near = rw (busy_now, from_start) (omega arith);
      }
  work_at-IsNear policy x returned ts w h e i a = absurd a

  works-IsNear :
      (policy : PolicyModel F H) (xs : List (Moment F D)) (w : World F D H)
      → IsNear 6 w
      → IsNear (6 - length xs) (works policy xs w)
  unfolding works work
  works-IsNear policy [] w i = i
  works-IsNear policy (x ∷ earlier) w i =
      let v = works policy earlier w in
      let j = works-IsNear policy earlier w i in
      let k = work_at-IsNear policy x (worker v) v.machine.pool.tasks v refl refl j.inv j.at_work in
      record { inv = k.inv; at_work = k.at_work; near = omega (arith, j.near, k.near) }

  tick-IsAtWork :
      (w : World F D H) (m : Machine F D H)
      → Ticked w.machine m
      → IsAtWork (worker w)
      → IsAtWork (worker (record w { machine = m }))
  tick-IsAtWork w m (quiet k) a = a
  tick-IsAtWork w m (posed k) a = a
  tick-IsAtWork w m (queued {p = p} job e k g en) a = rw (enqueue-some w.machine.pool p job en).1 a

  pub Step-IsAtWork :
      {policy : PolicyModel F H} {v w : World F D H}
      → Step policy v w
      → Inv v
      → IsAtWork (worker v)
      → IsAtWork (worker w)
  unfolding tick assign process_robot_task sense start_rt wake run_compute run_check run_commit
      run_release
  Step-IsAtWork {policy} {v} (tick_step now) i a =
      tick-IsAtWork v _ (control_loop_step-Ticked policy now v.machine) a
  Step-IsAtWork {v = v} (fetch_step job rest h e) i a = rw (fetch-running v job rest h e i).0 tt
  Step-IsAtWork {v = v} (finish_step job h e) i a = rw (finish-waiting job v h i) tt
  Step-IsAtWork _ i a = a

  pub Reach-IsAtWork :
      {policy : PolicyModel F H} {cfg : BrainConfig F} {hidden : H} {now : ℕ} {w : World F D H}
      → Reach policy cfg hidden now w
      → IsAtWork (worker w)
  unfolding boot create
  Reach-IsAtWork start = tt
  Reach-IsAtWork (next r s) = Step-IsAtWork s (Reach-Inv r) (Reach-IsAtWork r)

  -- From each state that is reached, six steps of the worker in a row, with no other thread's step in
  -- between, clear `is_inferring_`, whichever its next steps are, and whether the policy answers or ends in
  -- an exception of the type that the task catches.
  pub works-clear :
      {policy : PolicyModel F H} {cfg : BrainConfig F} {hidden : H} {now : ℕ} {w : World F D H}
      (xs : List (Moment F D))
      → Reach policy cfg hidden now w
      → 6 ≤ length xs
      → (works policy xs w).machine.brain.is_inferring ≡ false
  works-clear {policy} {w = w} xs r enough =
      let first : IsNear 6 w = record {
        inv = Reach-Inv r;
        at_work = Reach-IsAtWork r;
        near = steps_left_le (worker w) w.machine.pool.tasks w.stage;
      } in
      let k = works-IsNear policy xs w first in
      let v = works policy xs w in
      let none_left =
        idle_of_none (worker v) v.machine.pool.tasks v.stage k.at_work
          (omega (arith, k.near, enough)) in
      clear v.machine.brain.is_inferring (sym none_left ∙ k.inv.flag)
    where
      clear : (b : Bool) → 0 ≡ bit b → b ≡ false
      clear false e = refl
      clear true e = absurd (omega (arith, e))
