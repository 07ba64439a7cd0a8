-- ===== src/System/Liveness.antt =====
-- The inference worker beside the other threads: how long a frame can keep `is_inferring_` set, and that
-- the worker can always go on with it.
use robot_brain.Base.{
  ℕ, zero, suc, ◌+◌, ◌≤◌, ◌≡◌, refl, sym, ap, ◌∙◌, Bool, true, false, List, [], ◌∷◌, arith,
  replicate, length-replicate,
}
use robot_brain.Float.{Float, Convert}
use robot_brain.ThreadPool.{Worker, waiting, running, returned}
use robot_brain.Brain.{BrainConfig, Job, Machine, PolicyModel}
use robot_brain.Brain.Inference.{Stage, begun, computed, admitted, over, released}
use robot_brain.Brain.Tasks.{process_robot_task}
use robot_brain.System.Ticks.{Ticked, quiet, posed, queued, control_loop_step-Ticked}
use robot_brain.System.{
  World, worker, tick, assign, sense, start_rt, wake, Step, tick_step, task_step, sense_step,
  start_rt_step, wake_step, fetch_step, compute_step, check_step, commit_step, release_step,
  finish_step, Reach, next,
}
use robot_brain.System.Invariant.{bit, Inv, Reach-Inv}
use robot_brain.System.Progress.{work_in-IsNear, work_at-IsNear, Reach-IsAtWork}
use robot_brain.System.Progress.Work.{Moment, work_in, work_at}
use robot_brain.System.Progress.Count.{steps_in, steps_left, IsAtWork, steps_left_le, idle_of_none}

module _ {F D H : Type 0} ⦃f : Float F⦄ ⦃d : Float D⦄ ⦃c : Convert F D⦄ where
  -- A step of the inference worker.
  abbrev pub is_work : {policy : PolicyModel F H} {v w : World F D H} → Step policy v w → Bool
  is_work (fetch_step job rest h e) = true
  is_work (compute_step job buffer h e k) = true
  is_work (check_step job targets actions h e) = true
  is_work (commit_step job now targets actions h e) = true
  is_work (release_step job elapsed h e) = true
  is_work (finish_step job h e) = true
  is_work _ = false

  -- A run, of all threads, in which the flag is set at each moment, with the number of the worker's steps.
  pub data Busy (policy : PolicyModel F H) (v : World F D H) : ℕ → World F D H → Type 0 where
    here : v.machine.brain.is_inferring ≡ true → Busy policy v 0 v
    and_then :
        {n : ℕ} {w u : World F D H}
        → Busy policy v n w
        → (s : Step policy w u) → u.machine.brain.is_inferring ≡ true
        → Busy policy v (n + bit (is_work s)) u

  abbrev rank : World F D H → ℕ
  rank w = steps_left (worker w) w.machine.pool.tasks w.stage

  rank-running :
      (w : World F D H) (job : Job F) (s : Stage F)
      → worker w ≡ running job
      → w.stage ≡ s
      → rank w ≡ steps_in w.machine.pool.tasks s
  rank-running w job s h e = rw (h, e) refl

  tick-rank :
      (w : World F D H) (m : Machine F D H)
      → Ticked w.machine m
      → w.machine.brain.is_inferring ≡ true
      → rank (record w { machine = m }) ≤ rank w
  tick-rank w m (quiet k) t = omega arith
  tick-rank w m (posed k) t = omega arith
  tick-rank w m (queued job e k g en) t = absurd (cc)

  positive :
      (w : World F D H)
      → Inv w
      → IsAtWork (worker w)
      → w.machine.brain.is_inferring ≡ true
      → 1 ≤ rank w
  positive w i a t = at_least (rank w) refl
    where
      at_least : (n : ℕ) → rank w ≡ n → 1 ≤ n
      at_least (suc n) e = omega arith
      at_least zero e =
          let none_left = idle_of_none (worker w) w.machine.pool.tasks w.stage a e in
          let total : 0 ≡ 1 = sym none_left ∙ i.flag ∙ ap bit t in absurd (omega (arith, total))

  -- Each step of the worker brings it nearer to the end of the frame; no other step takes it back.
  Step-rank :
      {policy : PolicyModel F H} {v w : World F D H} (s : Step policy v w)
      → Inv v
      → IsAtWork (worker v)
      → v.machine.brain.is_inferring ≡ true
      → rank w + bit (is_work s) ≤ rank v
  unfolding tick assign process_robot_task sense start_rt wake work_in work_at
  Step-rank {policy} {v} (tick_step now) i a t =
      let k = tick-rank v _ (control_loop_step-Ticked policy now v.machine) t in omega (arith, k)
  Step-rank {policy} {v} (fetch_step job rest h e) i a t =
      let x : Moment F D = record { buffer = []; now = 0; elapsed_ms = d.lit 0 0 } in
      let k = (work_at-IsNear policy x waiting (job ∷ rest) v h e i tt).near in
      let five : rank v ≡ 5 = rw (h, e) refl in omega (arith, k, five)
  Step-rank {policy} {v} (compute_step job buffer h e fits) i a t =
      let x : Moment F D = record { buffer = buffer; now = 0; elapsed_ms = d.lit 0 0 } in
      let k = (work_in-IsNear policy x job begun v h e i).near in
      omega (arith, k, rank-running v job begun h e)
  Step-rank {policy} {v} (check_step job targets actions h e) i a t =
      let x : Moment F D = record { buffer = []; now = 0; elapsed_ms = d.lit 0 0 } in
      let k = (work_in-IsNear policy x job (computed targets actions) v h e i).near in
      omega (arith, k, rank-running v job (computed targets actions) h e)
  Step-rank {policy} {v} (commit_step job now targets actions h e) i a t =
      let x : Moment F D = record { buffer = []; now = now; elapsed_ms = d.lit 0 0 } in
      let k = (work_in-IsNear policy x job (admitted targets actions) v h e i).near in
      omega (arith, k, rank-running v job (admitted targets actions) h e)
  Step-rank {policy} {v} (release_step job elapsed h e) i a t =
      let x : Moment F D = record { buffer = []; now = 0; elapsed_ms = elapsed } in
      let k = (work_in-IsNear policy x job over v h e i).near in
      omega (arith, k, rank-running v job over h e)
  Step-rank {policy} {v} (finish_step job h e) i a t =
      let x : Moment F D = record { buffer = []; now = 0; elapsed_ms = d.lit 0 0 } in
      let k = (work_in-IsNear policy x job released v h e i).near in
      omega (arith, k, rank-running v job released h e, positive v i a t)
  Step-rank (task_step now t) i a k = omega arith
  Step-rank (sense_step msg) i a k = omega arith
  Step-rank (start_rt_step ok) i a k = omega arith
  Step-rank (wake_step now planned p q) i a k = omega arith

  -- While the flag is set, the worker has a step to take.
  work-enabled :
      {policy : PolicyModel F H} (w : World F D H)
      → Inv w
      → IsAtWork (worker w)
      → w.machine.brain.is_inferring ≡ true
      → (u : World F D H) × (s : Step policy w u) × (is_work s ≡ true)
  work-enabled {policy} w i a t = by_place (worker w) w.stage w.machine.pool.tasks refl refl refl a
    where
      by_place :
          (k : Worker (Job F)) (s : Stage F) (ts : List (Job F))
          → worker w ≡ k
          → w.stage ≡ s
          → w.machine.pool.tasks ≡ ts
          → IsAtWork k
          → (u : World F D H) × (s : Step policy w u) × (is_work s ≡ true)
      by_place waiting s [] h e q a =
          let total : 0 ≡ 1 = sym (rw (h, q) refl) ∙ i.flag ∙ ap bit t in
          absurd (omega (arith, total))
      by_place waiting s (job ∷ rest) h e q a = (_, fetch_step job rest h q, refl)
      by_place (running job) begun ts h e q a = (
        _,
        compute_step job (replicate w.machine.brain.obs_dim (f.lit 0 0)) h e
            (length-replicate w.machine.brain.obs_dim (f.lit 0 0)),
        refl,
      )
      by_place (running job) (computed targets actions) ts h e q a =
          (_, check_step job targets actions h e, refl)
      by_place (running job) (admitted targets actions) ts h e q a =
          (_, commit_step job 0 targets actions h e, refl)
      by_place (running job) over ts h e q a = (_, release_step job (d.lit 0 0) h e, refl)
      by_place (running job) released ts h e q a = (_, finish_step job h e, refl)
      by_place returned s ts h e q a = absurd a

  Busy-Reach :
      {policy : PolicyModel F H} {cfg : BrainConfig F} {hidden : H} {now : ℕ} {v : World F D H}
      {n : ℕ} {w : World F D H}
      → Reach policy cfg hidden now v
      → Busy policy v n w
      → Reach policy cfg hidden now w
  Busy-Reach r (here t) = r
  Busy-Reach r (and_then b s t) = next (Busy-Reach r b) s

  still_set :
      {policy : PolicyModel F H} {n : ℕ} {v w : World F D H}
      → Busy policy v n w
      → w.machine.brain.is_inferring ≡ true
  still_set (here t) = t
  still_set (and_then b s t) = t

  Busy-rank :
      {policy : PolicyModel F H} {cfg : BrainConfig F} {hidden : H} {now : ℕ} {v : World F D H}
      {n : ℕ} {w : World F D H}
      → Reach policy cfg hidden now v
      → Busy policy v n w
      → rank w + n ≤ 6
  Busy-rank {v = v} r (here t) =
      let k = steps_left_le (worker v) v.machine.pool.tasks v.stage in omega (arith, k)
  Busy-rank r (and_then b s t) =
      let q = Busy-Reach r b in
      let k = Step-rank s (Reach-Inv q) (Reach-IsAtWork q) (still_set b) in
      omega (arith, k, Busy-rank r b)

  -- In every run of all threads in any order, from a state that is reached, through which
  -- `is_inferring_` stays set: the worker has taken at most five steps, and it can take one more. The
  -- policy may answer or end in an exception of the type that the task catches.
  pub Busy-ends :
      {policy : PolicyModel F H} {cfg : BrainConfig F} {hidden : H} {now : ℕ} {v : World F D H}
      {n : ℕ} {w : World F D H}
      → Reach policy cfg hidden now v
      → Busy policy v n w
      → (n ≤ 5) × ((u : World F D H) × (s : Step policy w u) × (is_work s ≡ true))
  Busy-ends {w = w} r b =
      let q = Busy-Reach r b in
      let i = Reach-Inv q in
      let a = Reach-IsAtWork q in
      let k = positive w i a (still_set b) in
      (omega (arith, k, Busy-rank r b), work-enabled w i a (still_set b))
