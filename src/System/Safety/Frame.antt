-- ===== src/System/Safety/Frame.antt =====
-- The steps of the inference task stay within the limits.
use mathlib.Core.Path.{subst}
use robot_brain.Base.{ℕ, ◌≡◌, sym, Option, none, some, List, if_cases, ◌==◌}
use robot_brain.Float.{Float, Convert, IsIeee}
use robot_brain.Brain.{AiBrain, BrainConfig, Job, PolicyModel}
use robot_brain.Brain.Motion.{apply_rate_limit}
use robot_brain.Brain.Limits.{
  IsSafeConfig, InLimits, joint_targets_of-InLimits, apply_rate_limit-InLimits,
}
use robot_brain.Brain.Inference.{
  Stage, computed, admitted, compute, check_generation, commit, targets_stage, joint_targets_of,
}
use robot_brain.System.{World, run_compute, run_check, run_commit, with_brain}
use robot_brain.System.Safety.Defs.{StageInLimits, IsSafe, publish-sent}

module _ {F D H : Type 0} ⦃f : Float F⦄ ⦃d : Float D⦄ ⦃c : Convert F D⦄ (laws : IsIeee F)
    {cfg : BrainConfig F} (safe : IsSafeConfig cfg) where
  pub compute-IsSafe :
      (policy : PolicyModel F H) (job : Job F) (buffer : List F) (w : World F D H)
      → IsSafe cfg w
      → IsSafe cfg (run_compute policy job buffer w)
  unfolding run_compute compute
  compute-IsSafe policy job buffer w v = record {
    config = v.config;
    last = v.last;
    stage = staged _;
    sent = v.sent;
  }
    where
      staged : (o : Option (List F)) → StageInLimits cfg (targets_stage job o w.machine.brain)
      staged none = tt
      staged (some actions) =
          subst (λ g. InLimits g (joint_targets_of job actions w.machine.brain)) v.config
            (joint_targets_of-InLimits laws w.machine.brain job actions
              (subst IsSafeConfig (sym v.config) safe))

  pub check-IsSafe :
      (job : Job F) (targets actions : List F) (w : World F D H)
      → w.stage ≡ computed targets actions
      → IsSafe cfg w
      → IsSafe cfg (run_check job targets actions w)
  unfolding run_check check_generation
  check-IsSafe job targets actions w e v =
      let here : InLimits cfg targets = rw e at v.stage in
      if_cases
        (λ (out : AiBrain F D H × Stage F).
          IsSafe cfg (record (with_brain w out.0) { stage = out.1 }))
        (job.my_generation == w.machine.brain.task_generation) _ _
        (λ _. record { config = v.config; last = v.last; stage = here; sent = v.sent })
        (λ _. record { config = v.config; last = v.last; stage = tt; sent = v.sent })

  pub commit-IsSafe :
      (now : ℕ) (targets actions : List F) (w : World F D H)
      → w.stage ≡ admitted targets actions
      → IsSafe cfg w
      → IsSafe cfg (run_commit now targets actions w)
  unfolding run_commit commit
  commit-IsSafe now targets actions w e v =
      let here : InLimits cfg targets = rw e at v.stage in
      let b = w.machine.brain in
      let out : InLimits cfg (apply_rate_limit b targets) =
        subst (λ g. InLimits g (apply_rate_limit b targets)) v.config
          (apply_rate_limit-InLimits laws b targets (subst IsSafeConfig (sym v.config) safe)
            (subst (λ g. InLimits g b.last_joint_targets) (sym v.config) v.last)
            (subst (λ g. InLimits g targets) (sym v.config) here)) in
      record {
        config = v.config;
        last = out;
        stage = tt;
        sent = publish-sent cfg _ w.machine.ros out v.sent;
      }
