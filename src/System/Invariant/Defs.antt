-- ===== src/System/Invariant/Defs.antt =====
-- What the flag `is_inferring_` stands for.
use robot_brain.Base.{
  ℕ, ◌+◌, ◌≤◌, ◌≡◌, refl, Bool, true, false, Option, none, some, List, arith, length, ◌≢◌,
}
use robot_brain.Float.{Float}
use robot_brain.ThreadPool.{Worker, waiting, running}
use robot_brain.Brain.{AiBrain, Job}
use robot_brain.Brain.Inference.{Stage, begun, released, targets_stage}
use robot_brain.System.{World, worker}

abbrev pub bit : Bool → ℕ
bit true = 1
bit false = 0

-- Whether the worker is in a task that has not released the flag.
abbrev pub busy : {F : Type 0} → Worker (Job F) → Stage F → ℕ
busy (running job) released = 0
busy (running job) s = 1
busy w s = 0

pub bit_le : (b : Bool) → bit b ≤ 1
bit_le true = omega arith
bit_le false = omega arith

pub running_not_waiting : {F : Type 0} {job : Job F} → running job ≢ waiting
running_not_waiting e = cc

pub busy-targets_stage :
    {F D H : Type 0} ⦃f : Float F⦄ (job : Job F) (actions : Option (List F)) (b : AiBrain F D H)
    → busy (running job) (targets_stage job actions b) ≡ 1
unfolding targets_stage
busy-targets_stage job none b = refl
busy-targets_stage job (some a) b = refl

module _ {F D H : Type 0} where
  -- The flag is set exactly while one task is queued or running; the pool is as it was made.
  pub record Inv (w : World F D H) : Type 0 where
    pub flag :
        length w.machine.pool.tasks + busy (worker w) w.stage ≡ bit w.machine.brain.is_inferring
    pub one_worker : length w.machine.pool.workers ≡ 1
    pub room : w.machine.pool.max_queue ≡ 10
    pub begins : worker w ≡ waiting → w.stage ≡ begun
    pub reported : w.machine.brain.metrics.current_generation ≡ w.machine.brain.task_generation
