-- ===== src/System/Progress/Count.antt =====
-- How many steps the inference worker is from having no frame under way.
use robot_brain.Base.{ℕ, ◌+◌, ◌≤◌, ◌≡◌, refl, Option, none, some, List, [], ◌∷◌, length, arith}
use robot_brain.Float.{Float}
use robot_brain.ThreadPool.{Worker, waiting, running, returned}
use robot_brain.Brain.{AiBrain, Job}
use robot_brain.Brain.Inference.{Stage, begun, computed, admitted, over, released, targets_stage}
use robot_brain.System.Invariant.{busy}

module _ {F : Type 0} where
  -- How many steps the worker still needs, at most, until no frame is under way.
  abbrev pub steps_in : List (Job F) → Stage F → ℕ
  steps_in tasks begun = 4
  steps_in tasks (computed targets actions) = 3
  steps_in tasks (admitted targets actions) = 2
  steps_in tasks over = 1
  steps_in [] released = 0
  steps_in (job ∷ rest) released = 6

  abbrev pub steps_left : Worker (Job F) → List (Job F) → Stage F → ℕ
  steps_left (running job) tasks s = steps_in tasks s
  steps_left waiting [] s = 0
  steps_left waiting (job ∷ rest) s = 5
  steps_left returned tasks s = 0

  -- The worker has not left its loop.
  abbrev pub IsAtWork : Worker (Job F) → Type 0
  IsAtWork returned = ⊥
  IsAtWork x = Unit

  pub steps_left_le :
      (x : Worker (Job F)) (tasks : List (Job F)) (s : Stage F) → steps_left x tasks s ≤ 6
  steps_left_le (running job) tasks begun = omega arith
  steps_left_le (running job) tasks (computed targets actions) = omega arith
  steps_left_le (running job) tasks (admitted targets actions) = omega arith
  steps_left_le (running job) tasks over = omega arith
  steps_left_le (running job) [] released = omega arith
  steps_left_le (running job) (next_job ∷ rest) released = omega arith
  steps_left_le waiting [] s = omega arith
  steps_left_le waiting (job ∷ rest) s = omega arith
  steps_left_le returned tasks s = omega arith

  -- With no step left nothing is under way.
  pub idle_of_none :
      (x : Worker (Job F)) (tasks : List (Job F)) (s : Stage F)
      → IsAtWork x
      → steps_left x tasks s ≡ 0
      → length tasks + busy x s ≡ 0
  idle_of_none (running job) tasks begun a e = absurd (omega (arith, e))
  idle_of_none (running job) tasks (computed targets actions) a e = absurd (omega (arith, e))
  idle_of_none (running job) tasks (admitted targets actions) a e = absurd (omega (arith, e))
  idle_of_none (running job) tasks over a e = absurd (omega (arith, e))
  idle_of_none (running job) [] released a e = refl
  idle_of_none (running job) (next_job ∷ rest) released a e = absurd (omega (arith, e))
  idle_of_none waiting [] s a e = refl
  idle_of_none waiting (job ∷ rest) s a e = absurd (omega (arith, e))
  idle_of_none returned tasks s a e = absurd a

  pub steps_in-targets_stage :
      {D H : Type 0} ⦃f : Float F⦄ (tasks : List (Job F)) (job : Job F) (o : Option (List F))
      (b : AiBrain F D H)
      → steps_in tasks (targets_stage job o b) ≤ 3
  unfolding targets_stage
  steps_in-targets_stage tasks job none b = omega arith
  steps_in-targets_stage tasks job (some actions) b = omega arith
