-- ===== src/System/Frames/Defs.antt =====
-- Runs that count the frames that go into the pool and those that are lost to an exception.
use robot_brain.Base.{ℕ, ◌+◌, ◌-◌, ◌%◌, ◌^◌, ◌≡◌, length}
use robot_brain.Float.{Float, Convert}
use robot_brain.ThreadPool.{Worker, running}
use robot_brain.Brain.{BrainConfig, Job, PolicyModel}
use robot_brain.Brain.Inference.{Stage, begun, computed, admitted, over}
use robot_brain.System.{World, worker, boot, Step, tick_step, compute_step}

-- Whether the worker is in a task that has neither published nor been dropped.
abbrev pub open_task : {F : Type 0} → Worker (Job F) → Stage F → ℕ
open_task (running job) begun = 1
open_task (running job) (computed targets actions) = 1
open_task (running job) (admitted targets actions) = 1
open_task w s = 0

abbrev pub is_over : {F : Type 0} → Stage F → ℕ
is_over over = 1
is_over s = 0

module _ {F D H : Type 0} where
  -- The frames that are queued or under way.
  abbrev pub pending : World F D H → ℕ
  pending w = length w.machine.pool.tasks + open_task (worker w) w.stage

  -- The frames that are published, dropped as stale, or lost to an exception (`m` of them).
  abbrev pub Conserved : ℕ → ℕ → World F D H → Type 0
  Conserved n m w =
      let b = w.machine.brain in
      (b.metrics.total_frames + b.metrics.stale_frames + m + pending w) % 2 ^ 64 ≡ n % 2 ^ 64

module _ {F D H : Type 0} ⦃f : Float F⦄ ⦃d : Float D⦄ ⦃c : Convert F D⦄ where
  -- The frames that a step puts into the pool: only a tick does.
  abbrev pub submits : {policy : PolicyModel F H} {v w : World F D H} → Step policy v w → ℕ
  submits {v = v} {w = w} (tick_step now) =
      length w.machine.pool.tasks - length v.machine.pool.tasks
  submits _ = 0

  -- The frames that a step loses: those whose policy throws.
  abbrev pub loses : {policy : PolicyModel F H} {v w : World F D H} → Step policy v w → ℕ
  loses {w = w} (compute_step job buffer h e k) = is_over w.stage
  loses _ = 0

  -- A run, with the frames submitted and those lost.
  pub data Counted (policy : PolicyModel F H) (cfg : BrainConfig F) (hidden : H) (now : ℕ)
      : ℕ → ℕ → World F D H → Type 0 where
    start : Counted policy cfg hidden now 0 0 (boot cfg hidden now)
    next :
        {n m : ℕ} {v w : World F D H}
        → Counted policy cfg hidden now n m v
        → (s : Step policy v w) → Counted policy cfg hidden now (n + submits s) (m + loses s) w
