-- ===== src/System/Spec/Refines.antt =====
-- The worlds of System, seen through `view`, make only the moves of the specification.
use robot_brain.System.Ticks as ticks
use robot_brain.Base.{
  Bool, ℕ, suc, ◌+◌, ◌≡◌, refl, sym, ap, ◌∙◌, List, [], ◌∷◌, arith, length, get_or-set_self,
}
use robot_brain.Float.{Float, Convert}
use robot_brain.ThreadPool.{waiting, running, returned, create}
use robot_brain.ThreadPool.Runs.{enqueue-some, take-cons}
use robot_brain.Brain.{BrainConfig, Job, Machine, PolicyModel, TaskType, emergency_stop, new_brain}
use robot_brain.Brain.Tasks.{Task, process_robot_task, dispatch, accept, emergency}
use robot_brain.System.Ticks.{Ticked, Kept, control_loop_step-Ticked}
use robot_brain.System.Invariant.{Inv, Reach-Inv}
use robot_brain.System.Invariant.Defs.{bit, bit_le}
use robot_brain.System.Spec.{
  free, queued, Move, stay, renew, submit, begin, Moves, here, then, view,
}
use robot_brain.System.{
  World, worker, boot, tick, assign, sense, start_rt, wake, fetch, Step, tick_step, task_step,
  sense_step, start_rt_step, wake_step, fetch_step, compute_step, check_step, commit_step,
  release_step, finish_step, Reach, start, next, with_brain, with_ros,
}
use robot_brain.System.Spec.Slot.{moves_to, free_slot, flight_of_nil}
use robot_brain.System.Spec.Frame.{compute-Move, check-Move, commit-Move, release-Move, finish-Move}

module _ {F D H : Type 0} ⦃f : Float F⦄ ⦃d : Float D⦄ ⦃c : Convert F D⦄ where
  tick-Move :
      (w : World F D H) (q : Machine F D H)
      → Ticked w.machine q
      → Inv w
      → Move (view w) (view (record w { machine = q }))
  tick-Move w q (ticks.quiet k) i = moves_to _ stay (sym k.generation) (sym k.total) refl
  tick-Move w q (ticks.posed k) i = moves_to _ stay (sym k.generation) (sym k.total) refl
  tick-Move w q (ticks.queued {b} {p} job e k g en) i =
      let (empty, idle) = free_slot w.machine.pool.tasks (worker w) w.stage (i.flag ∙ ap bit e) in
      let (fits, shape) = enqueue-some w.machine.pool p job en in
      let was : (view w).flight ≡ free =
        flight_of_nil w.machine.pool.tasks (worker w) w.stage empty ∙ idle in
      moves_to _ (submit was) (sym k.generation) (sym k.total)
        (rw (shape, empty) (ap (λ x. queued x) (sym (g ∙ k.generation))))

  dispatch-Move :
      (k : TaskType) (policy : PolicyModel F H) (now : ℕ) (t : Task F) (w : World F D H)
      → let (b, r) = dispatch k policy now (accept t w.machine.brain) w.machine.ros in
        Move (view w) (view (with_ros (with_brain w b) r))
  unfolding dispatch accept emergency
  dispatch-Move emergency_stop policy now t w = renew
  dispatch-Move _ policy now t w = renew

  fetch-Move :
      (w : World F D H) (job : Job F) (rest : List (Job F))
      → worker w ≡ waiting
      → w.machine.pool.tasks ≡ job ∷ rest
      → Inv w
      → Move (view w) (view (fetch w))
  unfolding fetch
  fetch-Move w job rest idle e i =
      let held =
        get_or-set_self w.machine.pool.workers 0 (running job) returned
          (omega (arith, i.one_worker)) in
      let total : suc (length rest) + 0 ≡ bit w.machine.brain.is_inferring =
        rw (e, idle) at i.flag in
      let none_left : rest ≡ [] = nil_of_bit rest w.machine.brain.is_inferring total in
      rw (take-cons 0 w.machine.pool job rest idle e) (
        moves_to _ (begin job.my_generation (rw e refl)) refl refl
          (rw (held, i.begins idle, none_left) refl))
    where
      nil_of_bit : (ts : List (Job F)) (b : Bool) → suc (length ts) + 0 ≡ bit b → ts ≡ []
      nil_of_bit [] b h = refl
      nil_of_bit (x ∷ ts) b h = absurd (omega (arith, bit_le b))

  -- Each step of the threads is a move of the specification, from a world that meets the invariant.
  pub Step-Move :
      {policy : PolicyModel F H} {v w : World F D H}
      → Step policy v w
      → Inv v
      → Move (view v) (view w)
  unfolding tick assign process_robot_task sense start_rt wake
  Step-Move {policy} {v} (tick_step now) i =
      tick-Move v _ (control_loop_step-Ticked policy now v.machine) i
  Step-Move {policy} {v} (task_step now t) i = dispatch-Move t.task_type policy now t v
  Step-Move (sense_step msg) i = stay
  Step-Move (start_rt_step fifo_ok) i = stay
  Step-Move (wake_step now planned p q) i = stay
  Step-Move {v = v} (fetch_step job rest h e) i = fetch-Move v job rest h e i
  Step-Move {policy} {v} (compute_step job buffer h e k) i = compute-Move policy job buffer v h e i
  Step-Move {v = v} (check_step job targets actions h e) i = check-Move job targets actions v h e i
  Step-Move {v = v} (commit_step job now targets actions h e) i =
      commit-Move job now targets actions v h e i
  Step-Move {v = v} (release_step job elapsed h e) i = release-Move job elapsed v h e i
  Step-Move {v = v} (finish_step job h e) i = finish-Move job v h e i

  -- Every reachable world, seen through `view`, is reached by the moves of the specification from an
  -- empty slot at generation 0: a frame is made only for an empty slot and for the generation of that
  -- moment, is let pass only if that is still the generation then, and is published only after it was
  -- let pass; the slot is free again only after that frame has ended.
  pub Reach-refines :
      {policy : PolicyModel F H} {cfg : BrainConfig F} {hidden : H} {now : ℕ} {w : World F D H}
      → Reach policy cfg hidden now w
      → Moves (record { generation = 0; frames = 0; flight = free }) (view w)
  unfolding boot new_brain create
  Reach-refines start = here
  Reach-refines (next r s) = then (Reach-refines r) (Step-Move s (Reach-Inv r))
