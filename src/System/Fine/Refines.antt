-- ===== src/System/Fine/Refines.antt =====
-- The finer runs make only the moves of the specification, too.
use robot_brain.Base.{
  ℕ, ◌+◌, ◌≡◌, refl, sym, ap, ◌∙◌, Bool, true, false, [], inl, inr, Option-cases, if_cases, length,
  arith, ◌==◌, if◌then◌else◌,
}
use robot_brain.Float.{Float, Convert}
use robot_brain.Ros.{Proprioception}
use robot_brain.ThreadPool.{enqueue, create}
use robot_brain.ThreadPool.Runs.{enqueue-some, enqueue-none_iff}
use robot_brain.Brain.{
  AiBrain, BrainConfig, Job, Machine, PolicyModel, RobotState, TaskType, emergency_stop, executing,
  standing, idle, error, new_brain,
}
use robot_brain.Brain.Inference.{Stage, compute, check_generation, release_flag}
use robot_brain.System.Ticks.{detect_reset-Kept, ramp-Kept}
use robot_brain.System.{
  World, worker, Step, tick_step, task_step, check_step, commit_step, boot, with_brain, with_ros,
  sense, start_rt, wake, fetch, run_compute, run_check, run_release, run_finish,
}
use robot_brain.System.Invariant.{busy, Inv}
use robot_brain.System.Spec as spec
use robot_brain.System.Spec.{
  Flight, free, queued, Spec, Move, stay, renew, submit, Moves, here, flight_of, view,
}
use robot_brain.System.Spec.Slot.{moves_to, free_slot, flight_of_nil}
use robot_brain.System.Spec.Refines.{Step-Move}
use robot_brain.System.Fine.Tick.{
  TickPlace, out, timed, lost, fallen, watched, loaded, holding, sensed, settled, ramped, made,
  refused, begin_tick, win_flag, after_sense, enter_state, proceed_tick, after_enqueue,
}
use robot_brain.System.Fine.Task.{
  TaskPlace, ready, stored, counted, shown, stood, cleared, posed, going, store_task, proceed_task,
  branch,
}
use robot_brain.System.Fine.Shadow.{is_holding, is_counted, shadow, other-shadow, other-generation}
use robot_brain.System.Fine.Held.{Held}
use robot_brain.System.Fine.Flag.{Run-Held}
use robot_brain.System.Fine.{
  Threads, IsOther, Turn, enter_tick_turn, go_tick_turn, enter_task_turn, go_task_turn, other_turn,
  enter_tick, go_tick, enter_task, go_task, Run, start, next,
}

module _ {F : Type 0} where
  -- A frame that the tick has made and not handed on is in the slot already.
  abbrev pub flight_with : TickPlace F → Flight → Flight
  flight_with (made job) x = queued job.my_generation
  flight_with p x = x

module _ {F D H : Type 0} where
  abbrev pub seen : World F D H → TickPlace F → Spec
  seen w p = let s = view w in record s { flight = flight_with p s.flight }

module _ {F D H : Type 0} ⦃f : Float F⦄ ⦃d : Float D⦄ ⦃c : Convert F D⦄ where
  -- While the tick holds the flag the slot is free.
  Held-free :
      (w : World F D H) (p : TickPlace F) (q : TaskPlace F)
      → is_holding p ≡ true
      → Held w p q
      → (w.machine.pool.tasks ≡ []) × ((view w).flight ≡ free)
  Held-free w p q h i =
      let total : length w.machine.pool.tasks + busy (worker w) w.stage ≡ 0 = rw h at i.inv.flag in
      let (empty, nobody) = free_slot w.machine.pool.tasks (worker w) w.stage total in
      (empty, flight_of_nil w.machine.pool.tasks (worker w) w.stage empty ∙ nobody)

  win_flag-Move :
      (now : ℕ) (state : RobotState) (w : World F D H)
      → let (m, p) = win_flag now state w.machine in
        Move (view w) (seen (record w { machine = m }) p)
  unfolding win_flag
  win_flag-Move now state w =
      if_cases
        (λ (x : Machine F D H × TickPlace F). Move (view w) (seen (record w { machine = x.0 }) x.1))
        w.machine.brain.is_inferring _ _ (λ _. stay) (λ _. stay)

  enter_state-Move :
      (now : ℕ) (state : RobotState) (w : World F D H)
      → let (m, p) = enter_state now state w.machine in
        Move (view w) (seen (record w { machine = m }) p)
  unfolding enter_state
  enter_state-Move now executing w = win_flag-Move now executing w
  enter_state-Move now standing w = win_flag-Move now standing w
  enter_state-Move now idle w = stay
  enter_state-Move now error w = stay

  after_sense-Move :
      (policy : PolicyModel F H) (now : ℕ) (state : RobotState) (prop : Proprioception F)
      (w : World F D H)
      → let (m, p) = after_sense policy now state prop w.machine in
        Move (view w) (seen (record w { machine = m }) p)
  unfolding after_sense
  after_sense-Move policy now state prop w =
      let k = detect_reset-Kept policy prop.projected_gravity.v2 w.machine.brain in
      if_cases
        (λ (x : Machine F D H × TickPlace F). Move (view w) (seen (record w { machine = x.0 }) x.1))
        prop.valid _ _ (λ _. moves_to _ stay (sym k.generation) (sym k.total) refl) (λ _. stay)

  enqueue-Move :
      (job : Job F) (w : World F D H) (q : TaskPlace F)
      → Held w (made job) q
      → let (m, p) = after_enqueue w.machine (enqueue w.machine.pool job) in
        Move (seen w (made job)) (seen (record w { machine = m }) p)
  enqueue-Move job w q i =
      let (empty, _) = Held-free w (made job) q refl i in
      let none_left : length w.machine.pool.tasks ≡ 0 = ap length empty in
      elim (Option-cases (enqueue w.machine.pool job)) [
        | inl full ↦
            let k = (enqueue-none_iff w.machine.pool job).0 full in
            absurd (omega (arith, k, none_left, i.inv.room))
        | inr (pool, room) ↦
            let (fits, shape) = enqueue-some w.machine.pool pool job room in
            rw room (moves_to _ stay refl refl (rw (shape, empty) refl))
      ]

  timed-Move :
      (now : ℕ) (w : World F D H) (x : Bool)
      → Move (view w) (seen w (if x then lost now else watched now))
  timed-Move now w true = stay
  timed-Move now w false = stay

  tick-Move :
      (policy : PolicyModel F H) (w : World F D H) (p : TickPlace F) (q : TaskPlace F)
      → Held w p q
      → let (m, p₁) = proceed_tick policy p w.machine in
        Move (seen w p) (seen (record w { machine = m }) p₁)
  unfolding proceed_tick
  tick-Move policy w out q i = stay
  tick-Move policy w (timed now due) q i = timed-Move now w _
  tick-Move policy w (lost now) q i = stay
  tick-Move policy w (fallen now) q i = stay
  tick-Move policy w (watched now) q i = stay
  tick-Move policy w (loaded now state) q i = enter_state-Move now state w
  tick-Move policy w (holding now state) q i = stay
  tick-Move policy w (sensed now state prop) q i = after_sense-Move policy now state prop w
  tick-Move policy w (settled now state prop) q i =
      let k = ramp-Kept now w.machine.brain in moves_to _ stay (sym k.generation) (sym k.total) refl
  tick-Move policy w (ramped state prop) q i = submit (Held-free w (ramped state prop) q refl i).1
  tick-Move policy w (made job) q i = enqueue-Move job w q i
  tick-Move policy w refused q i = stay

  branch-Move :
      (k : TaskType) (w : World F D H) (p : TickPlace F)
      → Move (seen w p) (seen (with_brain w (branch k w.machine.brain).0) p)
  branch-Move emergency_stop w p = stay
  branch-Move _ w p = stay

  task-Move :
      (policy : PolicyModel F H) (now : ℕ) (w : World F D H) (p : TickPlace F) (q : TaskPlace F)
      → let (b, r, _) = proceed_task policy now q w.machine.brain w.machine.ros in
        Move (seen w p) (seen (with_ros (with_brain w b) r) p)
  unfolding proceed_task
  task-Move policy now w p ready = stay
  task-Move policy now w p (stored t) = renew
  task-Move policy now w p (counted t gen) = stay
  task-Move policy now w p (shown t) = branch-Move t.task_type w p
  task-Move policy now w p stood = stay
  task-Move policy now w p cleared = stay
  task-Move policy now w p posed = stay
  task-Move policy now w p going = stay

  -- Nothing is published while the tick holds the flag.
  other-frames :
      {policy : PolicyModel F H} (ahead : Bool) {v w : World F D H} (s : Step policy v w)
      → IsOther s
      → Inv (shadow true ahead v)
      → w.machine.brain.metrics.total_frames ≡ v.machine.brain.metrics.total_frames
  unfolding sense start_rt wake fetch run_compute compute run_check check_generation run_release
      release_flag run_finish
  other-frames ahead (tick_step now) o i = absurd o
  other-frames ahead (task_step now t) o i = absurd o
  other-frames ahead {v} (check_step job targets actions h e) o i =
      if_cases
        (λ (x : AiBrain F D H × Stage F).
          x.0.metrics.total_frames ≡ v.machine.brain.metrics.total_frames)
        (job.my_generation == v.machine.brain.task_generation) _ _ (λ _. refl) (λ _. refl)
  other-frames ahead {v} (commit_step job now targets actions h e) o i =
      let total : length v.machine.pool.tasks + 1 ≡ 0 = rw (h, e) at i.flag in
      absurd (omega (arith, total))
  other-frames ahead _ o i = refl

  other-Move :
      {policy : PolicyModel F H} {v w : World F D H} (p : TickPlace F) (q : TaskPlace F)
      (s : Step policy v w)
      → IsOther s
      → Held v p q
      → Move (seen v p) (seen w p)
  other-Move (made job) q s o i =
      moves_to _ stay (sym (other-generation s o)) (sym (other-frames (is_counted q) s o i.inv))
        refl
  other-Move out q s o i = Step-Move (other-shadow false (is_counted q) s o) i.inv
  other-Move (timed now due) q s o i = Step-Move (other-shadow false (is_counted q) s o) i.inv
  other-Move (lost now) q s o i = Step-Move (other-shadow false (is_counted q) s o) i.inv
  other-Move (fallen now) q s o i = Step-Move (other-shadow false (is_counted q) s o) i.inv
  other-Move (watched now) q s o i = Step-Move (other-shadow false (is_counted q) s o) i.inv
  other-Move (loaded now state) q s o i = Step-Move (other-shadow false (is_counted q) s o) i.inv
  other-Move (holding now state) q s o i = Step-Move (other-shadow true (is_counted q) s o) i.inv
  other-Move (sensed now state prop) q s o i =
      Step-Move (other-shadow true (is_counted q) s o) i.inv
  other-Move (settled now state prop) q s o i =
      Step-Move (other-shadow true (is_counted q) s o) i.inv
  other-Move (ramped state prop) q s o i = Step-Move (other-shadow true (is_counted q) s o) i.inv
  other-Move refused q s o i = Step-Move (other-shadow true (is_counted q) s o) i.inv

  Turn-Move :
      {policy : PolicyModel F H} {u v : Threads F D H}
      → Turn policy u v
      → Held u.world u.control u.service
      → Move (seen u.world u.control) (seen v.world v.control)
  unfolding enter_tick begin_tick go_tick enter_task store_task go_task
  Turn-Move (enter_tick_turn now e) i = rw e stay
  Turn-Move {policy} {u} go_tick_turn i = tick-Move policy u.world u.control u.service i
  Turn-Move (enter_task_turn t e) i = stay
  Turn-Move {policy} {u} (go_task_turn now) i = task-Move policy now u.world u.control u.service
  Turn-Move {u = u} (other_turn s o) i = other-Move u.control u.service s o i

  -- From every state that is reached, each single step of the finer threads, be it in the middle of a
  -- tick or of a task, is seen as one move of the specification of one slot and one generation, or as
  -- none: so a frame enters only a free slot, with the generation of that moment; it passes its comparison
  -- only if that is still the generation; only a frame that has passed is counted as published; and the
  -- slot is free again only after the frame has ended.
  pub Turn-refines :
      {policy : PolicyModel F H} {cfg : BrainConfig F} {hidden : H} {now : ℕ} {u v : Threads F D H}
      → Run policy cfg hidden now u
      → Turn policy u v
      → Move (seen u.world u.control) (seen v.world v.control)
  Turn-refines r s = Turn-Move s (Run-Held r)

  -- A finer run makes moves only, from an empty slot at generation 0.
  pub Run-refines :
      {policy : PolicyModel F H} {cfg : BrainConfig F} {hidden : H} {now : ℕ} {v : Threads F D H}
      → Run policy cfg hidden now v
      → Moves (record { generation = 0; frames = 0; flight = free }) (seen v.world v.control)
  unfolding boot new_brain create
  Run-refines start = here
  Run-refines (next r s) = spec.then (Run-refines r) (Turn-Move s (Run-Held r))
