-- ===== src/System/Fine/Shadow.antt =====
-- The world as the other threads would see it had the control thread not taken the flag yet, and had
-- the gRPC thread already told of the generation that it has counted.
use mathlib.Core.Path.{subst}
use robot_brain.Base.{
  ◌+◌, ◌≡◌, refl, ap, Bool, true, false, List, arith, length, if_cases, Bool-cases, inl, inr,
  Option, none, some, ◌==◌, if◌then◌else◌,
}
use robot_brain.Float.{Float, Convert}
use robot_brain.Brain.{AiBrain, Job, PolicyModel}
use robot_brain.Brain.Inference.{
  Stage, compute, check_generation, commit, release_flag, targets_stage, joint_targets_of,
  raw_targets, limit_targets, obs_input, gait_phase,
}
use robot_brain.Brain.Observation.{build_observation}
use robot_brain.System.{
  World, Step, tick_step, task_step, sense_step, start_rt_step, wake_step, fetch_step, compute_step,
  check_step, commit_step, release_step, finish_step, with_brain, sense, start_rt, wake, fetch,
  run_compute, run_check, run_commit, run_release, run_finish,
}
use robot_brain.System.Invariant.{Inv}
use robot_brain.System.Fine.{IsOther}
use robot_brain.System.Fine.Tick.{TickPlace, holding, sensed, settled, ramped, made, refused}
use robot_brain.System.Fine.Task.{TaskPlace, counted}

-- Whether the control thread has won `is_inferring_` and not handed it on.
abbrev pub is_holding : {F : Type 0} → TickPlace F → Bool
is_holding (holding now state) = true
is_holding (sensed now state prop) = true
is_holding (settled now state prop) = true
is_holding (ramped state prop) = true
is_holding (made job) = true
is_holding refused = true
is_holding p = false

-- Whether the gRPC thread has counted a task that the metrics do not tell of.
abbrev pub is_counted : {F : Type 0} → TaskPlace F → Bool
is_counted (counted t gen) = true
is_counted q = false

module _ {F D H : Type 0} where
  abbrev pub shadow_brain : Bool → Bool → AiBrain F D H → AiBrain F D H
  shadow_brain held ahead b = record b {
    is_inferring = if held then false else b.is_inferring;
    metrics = record b.metrics {
      current_generation = if ahead then b.task_generation else b.metrics.current_generation;
    };
  }

  abbrev pub shadow : Bool → Bool → World F D H → World F D H
  shadow held ahead w = with_brain w (shadow_brain held ahead w.machine.brain)

module _ {F D H : Type 0} ⦃f : Float F⦄ ⦃d : Float D⦄ ⦃c : Convert F D⦄ where
  check-shadow :
      (held ahead : Bool) (job : Job F) (targets actions : List F) (w : World F D H)
      → run_check job targets actions (shadow held ahead w)
        ≡ shadow held ahead (run_check job targets actions w)
  unfolding run_check check_generation
  check-shadow held ahead job targets actions w =
      elim (Bool-cases (job.my_generation == w.machine.brain.task_generation)) [
        | inl e ↦ rw e refl
        | inr e ↦ rw e refl
      ]

  stage-shadow :
      (held ahead : Bool) (job : Job F) (o : Option (List F)) (b : AiBrain F D H)
      → targets_stage job o (shadow_brain held ahead b) ≡ targets_stage job o b
  unfolding targets_stage joint_targets_of raw_targets limit_targets
  stage-shadow held ahead job none b = refl
  stage-shadow held ahead job (some actions) b = refl

  compute-shadow :
      (policy : PolicyModel F H) (held ahead : Bool) (job : Job F) (buffer : List F)
      (w : World F D H)
      → run_compute policy job buffer (shadow held ahead w)
        ≡ shadow held ahead (run_compute policy job buffer w)
  unfolding run_compute compute obs_input gait_phase
  compute-shadow policy held ahead job buffer w =
      let b = w.machine.brain in
      let out = policy.forward b.hidden (build_observation (obs_input job b) buffer) in
      ap
        (λ (s : Stage F).
          record (with_brain w (record (shadow_brain held ahead b) { hidden = out.0 })) {
            stage = s;
          })
        (stage-shadow held ahead job out.1 b)

  release-shadow :
      (held ahead : Bool) (elapsed : D) (w : World F D H)
      → run_release elapsed (shadow held ahead w) ≡ shadow held ahead (run_release elapsed w)
  unfolding run_release release_flag
  release-shadow true ahead elapsed w = refl
  release-shadow false ahead elapsed w = refl

  -- The other threads do the same to the shadow.
  pub other-shadow :
      {policy : PolicyModel F H} (held ahead : Bool) {v w : World F D H} (s : Step policy v w)
      → IsOther s
      → Step policy (shadow held ahead v) (shadow held ahead w)
  unfolding sense start_rt wake fetch run_compute compute run_commit commit run_finish
  other-shadow held ahead (tick_step now) o = absurd o
  other-shadow held ahead (task_step now t) o = absurd o
  other-shadow held ahead (sense_step msg) o = sense_step msg
  other-shadow held ahead (start_rt_step fifo_ok) o = start_rt_step fifo_ok
  other-shadow held ahead (wake_step now planned p q) o = wake_step now planned p q
  other-shadow held ahead (fetch_step job rest h e) o = fetch_step job rest h e
  other-shadow {policy} held ahead {v} (compute_step job buffer h e k) o =
      subst (Step policy (shadow held ahead v)) (compute-shadow policy held ahead job buffer v)
        (compute_step job buffer h e k)
  other-shadow {policy} held ahead {v} (check_step job targets actions h e) o =
      subst (Step policy (shadow held ahead v)) (check-shadow held ahead job targets actions v)
        (check_step job targets actions h e)
  other-shadow held ahead (commit_step job now targets actions h e) o =
      commit_step job now targets actions h e
  other-shadow {policy} held ahead {v} (release_step job elapsed h e) o =
      subst (Step policy (shadow held ahead v)) (release-shadow held ahead elapsed v)
        (release_step job elapsed h e)
  other-shadow held ahead (finish_step job h e) o = finish_step job h e

  -- The other threads do not count tasks.
  pub other-generation :
      {policy : PolicyModel F H} {v w : World F D H} (s : Step policy v w)
      → IsOther s
      → w.machine.brain.task_generation ≡ v.machine.brain.task_generation
  unfolding sense start_rt wake fetch run_compute compute run_check check_generation run_commit
      commit run_release release_flag run_finish
  other-generation (tick_step now) o = absurd o
  other-generation (task_step now t) o = absurd o
  other-generation {v = v} (check_step job targets actions h e) o =
      if_cases
        (λ (out : AiBrain F D H × Stage F). out.0.task_generation ≡ v.machine.brain.task_generation)
        (job.my_generation == v.machine.brain.task_generation) _ _ (λ _. refl) (λ _. refl)
  other-generation _ o = refl

  -- Only the worker in a task that has not released the flag clears it.
  pub other-flag :
      {policy : PolicyModel F H} (ahead : Bool) {v w : World F D H} (s : Step policy v w)
      → IsOther s
      → Inv (shadow true ahead v)
      → w.machine.brain.is_inferring ≡ v.machine.brain.is_inferring
  unfolding sense start_rt wake fetch run_compute compute run_check check_generation run_commit
      commit run_finish
  other-flag ahead (tick_step now) o i = absurd o
  other-flag ahead (task_step now t) o i = absurd o
  other-flag ahead {v} (check_step job targets actions h e) o i =
      if_cases
        (λ (out : AiBrain F D H × Stage F). out.0.is_inferring ≡ v.machine.brain.is_inferring)
        (job.my_generation == v.machine.brain.task_generation) _ _ (λ _. refl) (λ _. refl)
  other-flag ahead {v} (release_step job elapsed h e) o i =
      let total : length v.machine.pool.tasks + 1 ≡ 0 = rw (h, e) at i.flag in
      absurd (omega (arith, total))
  other-flag ahead _ o i = refl
