-- ===== src/System/Spec/Slot.antt =====
-- Where the frame of a world is: the slot as `view` sees it.
use mathlib.Core.Path.{subst}
use robot_brain.Base.{Bool, ◌+◌, ◌≡◌, refl, List, [], ◌∷◌, arith, length}
use robot_brain.ThreadPool.{Worker, waiting, running, returned}
use robot_brain.Brain.{Job}
use robot_brain.Brain.Inference.{Stage, begun, computed, admitted, over, released}
use robot_brain.System.Invariant.Defs.{bit, bit_le, busy}
use robot_brain.System.Spec.{free, Spec, Move, flight_at, flight_of}

-- A move that ends where the three fields say.
pub moves_to :
    {s t : Spec} (u : Spec)
    → Move s t
    → t.generation ≡ u.generation
    → t.frames ≡ u.frames
    → t.flight ≡ u.flight
    → Move s u
moves_to {s} u m g n l =
    subst (Move s) (λ i. record { generation = g i; frames = n i; flight = l i }) m

module _ {F : Type 0} where
  -- A flag that is clear leaves nothing in the pool, and the worker in no frame.
  pub free_slot :
      (tasks : List (Job F)) (x : Worker (Job F)) (s : Stage F)
      → length tasks + busy x s ≡ 0
      → (tasks ≡ []) × (flight_at x s ≡ free)
  free_slot [] waiting s e = (refl, refl)
  free_slot [] returned s e = (refl, refl)
  free_slot [] (running job) released e = (refl, refl)
  free_slot [] (running job) begun e = absurd (omega arith)
  free_slot [] (running job) (computed targets actions) e = absurd (omega arith)
  free_slot [] (running job) (admitted targets actions) e = absurd (omega arith)
  free_slot [] (running job) over e = absurd (omega arith)
  free_slot (job ∷ tasks) x s e = absurd (omega arith)

  pub flight_of_nil :
      (tasks : List (Job F)) (x : Worker (Job F)) (s : Stage F)
      → tasks ≡ []
      → flight_of tasks x s ≡ flight_at x s
  flight_of_nil tasks x s e = rw e refl

  -- While the worker is in a frame, the flag leaves no other frame in the pool.
  pub alone :
      (tasks : List (Job F)) (x : Worker (Job F)) (s : Stage F) (b : Bool)
      → length tasks + busy x s ≡ bit b
      → busy x s ≡ 1
      → tasks ≡ []
  alone [] x s b e h = refl
  alone (job ∷ tasks) x s b e h = absurd (omega (arith, bit_le b))
