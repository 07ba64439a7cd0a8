-- ===== src/System/Spec.antt =====
-- What the threads of the brain promise together: a slot for one frame, and a generation.
pub mod Refines
pub mod Slot
pub mod Frame
use robot_brain.Base.{ℕ, ◌≡◌, List, [], ◌∷◌}
use robot_brain.ThreadPool.{Worker, waiting, running, returned}
use robot_brain.Brain.{Job, bump}
use robot_brain.Brain.Inference.{Stage, begun, computed, admitted, over, released}
use robot_brain.System.{World, worker}

-- The frame in the slot, with the generation that it was made for.
pub data Flight : Type 0 where
  free : Flight
  queued computing passed : ℕ → Flight
  ended : Flight

pub record Spec : Type 0 where
  pub generation : ℕ
  -- How many frames were published.
  pub frames : ℕ
  pub flight : Flight

-- A frame is made only where the slot is free, and for the generation of that moment; it is let pass
-- only if that is still the generation then; only a frame that was let pass is published; and the slot
-- is free again only after its frame has ended.
pub data Move (s : Spec) : Spec → Type 0 where
  stay : Move s s
  renew : Move s (record s { generation = bump s.generation })
  submit : s.flight ≡ free → Move s (record s { flight = queued s.generation })
  begin : (g : ℕ) → s.flight ≡ queued g → Move s (record s { flight = computing g })
  pass :
      (g : ℕ) → s.flight ≡ computing g → g ≡ s.generation → Move s (record s { flight = passed g })
  lose : (g : ℕ) → s.flight ≡ computing g → Move s (record s { flight = ended })
  publish :
      (g : ℕ) → s.flight ≡ passed g → Move s (record s { flight = ended; frames = bump s.frames })
  release : s.flight ≡ ended → Move s (record s { flight = free })

pub data Moves (s : Spec) : Spec → Type 0 where
  here : Moves s s
  then : {t u : Spec} → Moves s t → Move t u → Moves s u

module _ {F : Type 0} where
  abbrev pub flight_at : Worker (Job F) → Stage F → Flight
  flight_at (running job) begun = computing job.my_generation
  flight_at (running job) (computed targets actions) = computing job.my_generation
  flight_at (running job) (admitted targets actions) = passed job.my_generation
  flight_at (running job) over = ended
  flight_at w s = free

  abbrev pub flight_of : List (Job F) → Worker (Job F) → Stage F → Flight
  flight_of (job ∷ rest) w s = queued job.my_generation
  flight_of [] w s = flight_at w s

-- What of a world the promise is about.
abbrev pub view : {F D H : Type 0} → World F D H → Spec
view w = record {
  generation = w.machine.brain.task_generation;
  frames = w.machine.brain.metrics.total_frames;
  flight = flight_of w.machine.pool.tasks (worker w) w.stage;
}
