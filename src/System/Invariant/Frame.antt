-- ===== src/System/Invariant/Frame.antt =====
-- The steps of the inference task keep the invariant.
use robot_brain.Base.{
  ℕ, ◌+◌, ◌≡◌, refl, sym, ap, ◌∙◌, List, arith, length, length-set, get_or-set_self, if_cases, ◌==◌,
}
use robot_brain.Float.{Float, Convert}
use robot_brain.Ros.{RosNode}
use robot_brain.ThreadPool.{waiting, running, returned, value}
use robot_brain.ThreadPool.Runs.{finish-running}
use robot_brain.Brain.{AiBrain, Job, PolicyModel}
use robot_brain.Brain.Inference.{
  Stage, begun, computed, admitted, over, released, compute, check_generation, commit, release_flag,
  obs_input, targets_stage,
}
use robot_brain.Brain.Observation.{build_observation}
use robot_brain.System.{
  World, worker, run_compute, run_check, run_commit, run_release, run_finish, with_brain, with_ros,
}
use robot_brain.System.Invariant.Defs.{
  bit, bit_le, busy, running_not_waiting, busy-targets_stage, Inv,
}

module _ {F D H : Type 0} ⦃f : Float F⦄ ⦃d : Float D⦄ ⦃c : Convert F D⦄ where
  -- A step of the task that keeps the flag and stays before its release.
  same-Inv :
      (w : World F D H) (job : Job F) (b : AiBrain F D H) (r : RosNode F D) (s : Stage F)
      → worker w ≡ running job
      → busy (running job) s ≡ busy (running job) w.stage
      → b.is_inferring ≡ w.machine.brain.is_inferring
      → b.metrics.current_generation ≡ b.task_generation
      → Inv w
      → Inv (record (with_ros (with_brain w b) r) { stage = s })
  same-Inv w job b r s h m fl rep v = record {
    flag = ap (λ k. length w.machine.pool.tasks + k) (moved h) ∙ v.flag ∙ ap bit (sym fl);
    one_worker = v.one_worker;
    room = v.room;
    begins = λ idle. absurd (running_not_waiting (sym h ∙ idle));
    reported = rep;
  }
    where
      moved : worker w ≡ running job → busy (worker w) s ≡ busy (worker w) w.stage
      moved e = rw e m

  pub compute-Inv :
      (policy : PolicyModel F H) (job : Job F) (buffer : List F) (w : World F D H)
      → worker w ≡ running job
      → w.stage ≡ begun
      → Inv w
      → Inv (run_compute policy job buffer w)
  unfolding run_compute compute
  compute-Inv policy job buffer w h e v =
      let b = w.machine.brain in
      let actions = (policy.forward b.hidden (build_observation (obs_input job b) buffer)).1 in
      same-Inv w job _ w.machine.ros (targets_stage job actions b) h
        (busy-targets_stage job actions b ∙ sym (ap (busy (running job)) e)) refl v.reported v

  pub check-Inv :
      (job : Job F) (targets actions : List F) (w : World F D H)
      → worker w ≡ running job
      → w.stage ≡ computed targets actions
      → Inv w
      → Inv (run_check job targets actions w)
  unfolding run_check check_generation
  check-Inv job targets actions w h e v =
      let before = sym (ap (busy (running job)) e) in
      if_cases
        (λ (out : AiBrain F D H × Stage F). Inv (record (with_brain w out.0) { stage = out.1 }))
        (job.my_generation == w.machine.brain.task_generation) _ _
        (λ _. same-Inv w job _ w.machine.ros (admitted targets actions) h before refl v.reported v)
        (λ _. same-Inv w job _ w.machine.ros over h before refl v.reported v)

  pub commit-Inv :
      (job : Job F) (now : ℕ) (targets actions : List F) (w : World F D H)
      → worker w ≡ running job
      → w.stage ≡ admitted targets actions
      → Inv w
      → Inv (run_commit now targets actions w)
  unfolding run_commit commit
  commit-Inv job now targets actions w h e v =
      same-Inv w job _ _ over h (sym (ap (busy (running job)) e)) refl v.reported v

  pub release-Inv :
      (job : Job F) (elapsed : D) (w : World F D H)
      → worker w ≡ running job
      → w.stage ≡ over
      → Inv w
      → Inv (run_release elapsed w)
  unfolding run_release release_flag
  release-Inv job elapsed w h e v =
      let total : length w.machine.pool.tasks + 1 ≡ bit w.machine.brain.is_inferring =
        rw (h, e) at v.flag in
      record {
        flag = rw h (omega (arith, total, bit_le w.machine.brain.is_inferring));
        one_worker = v.one_worker;
        room = v.room;
        begins = λ idle. absurd (running_not_waiting (sym h ∙ idle));
        reported = v.reported;
      }

  pub finish-Inv :
      (job : Job F) (w : World F D H)
      → worker w ≡ running job
      → w.stage ≡ released
      → Inv w
      → Inv (run_finish w)
  unfolding run_finish
  finish-Inv job w h e v =
      let total : length w.machine.pool.tasks + 0 ≡ bit w.machine.brain.is_inferring =
        rw (h, e) at v.flag in
      let held =
        get_or-set_self w.machine.pool.workers 0 waiting returned (omega (arith, v.one_worker)) in
      rw (finish-running 0 value w.machine.pool job h) (record {
        flag = rw held total;
        one_worker = length-set w.machine.pool.workers 0 waiting ∙ v.one_worker;
        room = v.room;
        begins = λ _. refl;
        reported = v.reported;
      })
