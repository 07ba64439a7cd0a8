-- ===== src/System/Fine/Whole.antt =====
-- A tick or a task that nobody comes in between is the one of System.
use mathlib.Core.Path.{subst}
use robot_brain.Base.{
  ℕ, ◌≡◌, refl, ap, Bool, true, false, inl, inr, Option-cases, Bool-cases, if_cases, ◌&&◌,
  if◌then◌else◌,
}
use robot_brain.Float.{Float, Convert}
use robot_brain.Ros.{Proprioception, RosNode, get_latest_proprioception}
use robot_brain.ThreadPool.{enqueue}
use robot_brain.Brain.{
  AiBrain, BrainConfig, Job, Machine, PolicyModel, RobotState, TaskType, emergency_stop, executing,
  standing, idle, error,
}
use robot_brain.Brain.Tasks as tasks
use robot_brain.Brain.Tasks.{accept, dispatch, emergency, process_robot_task}
use robot_brain.Brain.Control.{
  is_executing, watchdog_clear, watchdog, detect_reset, prepare, make_job, set_inferring, submitted,
  infer_frame, try_infer, step_in_state, control_loop_step,
}
use robot_brain.System as system
use robot_brain.System.{World, with_brain, with_ros, boot, tick, assign, Step, Reach}
use robot_brain.System.Fine.Tick.{
  TickPlace, out, timed, lost, fallen, watched, loaded, holding, sensed, settled, ramped, made,
  refused, begin_tick, win_flag, after_sense, enter_state, proceed_tick,
}
use robot_brain.System.Fine.Task.{TaskPlace, ready, store_task, proceed_task, branch}
use robot_brain.System.Fine.{
  enter_tick_turn, go_tick_turn, enter_task_turn, go_task_turn, other_turn, enter_tick, go_tick,
  enter_task, go_task, at_rest, Run, start, next,
}

module _ {F D H : Type 0} ⦃f : Float F⦄ ⦃d : Float D⦄ ⦃c : Convert F D⦄ (policy : PolicyModel F H)
    (cfg : BrainConfig F) (hidden : H) (boot_ms : ℕ) where
  -- A run in which the control thread is at `p` of a tick and no task is under way.
  abbrev At : World F D H → Machine F D H → TickPlace F → Type 0
  At w m p =
      Run policy cfg hidden boot_ms
        (record { world = record w { machine = m }; control = p; service = ready })

  go :
      (w : World F D H) (m n : Machine F D H) (p q : TickPlace F)
      → proceed_tick policy p m ≡ (n, q)
      → At w m p
      → At w n q
  unfolding go_tick
  go w m n p q e r =
      subst (λ (x : Machine F D H × TickPlace F). At w x.0 x.1) e (next r go_tick_turn)

  from_made :
      (w : World F D H) (m : Machine F D H) (job : Job F)
      → At w m (made job)
      → At w (submitted m (enqueue m.pool job)) out
  unfolding submitted proceed_tick
  from_made w m job r = elim (Option-cases (enqueue m.pool job)) [
    | inl full ↦ rw full (go w m _ refused out refl (go w m m (made job) refused (rw full refl) r))
    | inr (pool, room) ↦ rw room (go w m _ (made job) out (rw room refl) r)
  ]

  from_sensed :
      (w : World F D H) (m : Machine F D H) (now : ℕ) (state : RobotState) (prop : Proprioception F)
      → At w m (sensed now state prop)
      → At w (infer_frame policy now state prop m) out
  unfolding infer_frame prepare proceed_tick after_sense
  from_sensed w m now state prop r =
      let b₁ = detect_reset policy prop.projected_gravity.v2 m.brain in
      let b₂ = prepare policy now prop m.brain in
      let m₁ = record m { brain = b₁ } in
      let m₂ = record m { brain = b₂ } in
      let bad_end = record m { brain = set_inferring false m.brain } in
      let test : Bool → Machine F D H × TickPlace F =
        λ x. if x then (m₁, settled now state prop) else (bad_end, out) in
      if_cases (λ x. At w x out) prop.valid _ _
        (λ good. from_made w m₂ (make_job state prop b₂) (
          go w m₂ m₂ (ramped state prop) _ refl (
            go w m₁ m₂ (settled now state prop) (ramped state prop) refl
              (go w m m₁ (sensed now state prop) (settled now state prop) (ap test good) r))))
        (λ bad. go w m bad_end (sensed now state prop) out (ap test bad) r)

  from_flag :
      (w : World F D H) (m : Machine F D H) (now : ℕ) (state : RobotState)
      → At w (win_flag now state m).0 (win_flag now state m).1
      → At w (try_infer policy now state m) out
  unfolding win_flag try_infer proceed_tick
  from_flag w m now state r = elim (Bool-cases m.brain.is_inferring) [
    | inl set ↦ rw set (rw set at r)
    | inr clear ↦
        let won = record m { brain = set_inferring true m.brain } in
        let here : At w won (holding now state) = rw clear at r in
        rw clear (
          from_sensed w won now state (get_latest_proprioception m.ros)
            (go w won won (holding now state) _ refl here))
  ]

  from_loaded :
      (w : World F D H) (m : Machine F D H) (now : ℕ) (state : RobotState)
      → At w m (loaded now state)
      → At w (step_in_state state policy now m) out
  unfolding step_in_state enter_state proceed_tick
  from_loaded w m now executing r =
      from_flag w m now executing (go w m _ (loaded now executing) _ refl r)
  from_loaded w m now standing r =
      from_flag w m now standing (go w m _ (loaded now standing) _ refl r)
  from_loaded w m now idle r = go w m _ (loaded now idle) out refl r
  from_loaded w m now error r = go w m _ (loaded now error) out refl r

  from_watched :
      (w : World F D H) (m : Machine F D H) (now : ℕ)
      → At w m (watched now)
      → At w (step_in_state m.brain.metrics.current_state policy now m) out
  unfolding proceed_tick
  from_watched w m now r =
      from_loaded w m now m.brain.metrics.current_state (go w m m (watched now) _ refl r)

  from_timed :
      (w : World F D H) (m : Machine F D H) (now : ℕ) (due : Bool)
      → At w m (timed now due)
      → let b = watchdog_clear due m.brain in
        At w (step_in_state b.metrics.current_state policy now (record m { brain = b })) out
  unfolding proceed_tick watchdog_clear
  from_timed w m now due r = elim (Bool-cases (due && is_executing m.brain.metrics.current_state)) [
    | inl gone ↦ rw gone (
        from_watched w _ now (
          go w _ _ (fallen now) (watched now) refl (
            go w m _ (lost now) (fallen now) refl
              (go w m m (timed now due) (lost now) (rw gone refl) r))))
    | inr fine ↦
        rw fine (from_watched w m now (go w m m (timed now due) (watched now) (rw fine refl) r))
  ]

  tick-Run :
      (w : World F D H) (now : ℕ)
      → Run policy cfg hidden boot_ms (at_rest w)
      → Run policy cfg hidden boot_ms (at_rest (tick policy now w))
  unfolding tick control_loop_step watchdog enter_tick begin_tick
  tick-Run w now r = from_timed w w.machine now _ (next r (enter_tick_turn now refl))

  -- The control thread stays between two ticks, and the gRPC thread is at `q`.
  abbrev Serving : World F D H → AiBrain F D H → RosNode F D → TaskPlace F → Type 0
  Serving w b r q =
      Run policy cfg hidden boot_ms
        (record { world = with_ros (with_brain w b) r; control = out; service = q })

  from_branch :
      (k : TaskType) (now : ℕ) (w : World F D H) (b : AiBrain F D H) (r : RosNode F D)
      → Serving w (branch k b).0 r (branch k b).1
      → let (b₁, r₁) = dispatch k policy now b r in Serving w b₁ r₁ ready
  unfolding dispatch emergency go_task proceed_task
  from_branch emergency_stop now w b r run =
      next (next (next run (go_task_turn now)) (go_task_turn now)) (go_task_turn now)
  from_branch _ now w b r run = next run (go_task_turn now)

  assign-Run :
      (w : World F D H) (now : ℕ) (t : tasks.Task F)
      → Run policy cfg hidden boot_ms (at_rest w)
      → Run policy cfg hidden boot_ms (at_rest (assign policy now t w))
  unfolding assign process_robot_task accept enter_task store_task go_task proceed_task
  assign-Run w now t r = from_branch t.task_type now w (accept t w.machine.brain) w.machine.ros (
      next (next (next (next r (enter_task_turn t refl)) (go_task_turn now)) (go_task_turn now))
        (go_task_turn now))

  -- Every run of System is also a run of the finer steps: the steps of a tick, or of a task, that nobody
  -- comes in between do together what `ControlLoopStep`, or `ProcessRobotTask`, does in one.
  pub Reach-Run :
      {w : World F D H}
      → Reach policy cfg hidden boot_ms w
      → Run policy cfg hidden boot_ms (at_rest w)
  Reach-Run system.start = start
  Reach-Run (system.next {v} r (system.tick_step now)) = tick-Run v now (Reach-Run r)
  Reach-Run (system.next {v} r (system.task_step now t)) = assign-Run v now t (Reach-Run r)
  Reach-Run (system.next r (system.sense_step msg)) =
      next (Reach-Run r) (other_turn (system.sense_step msg) tt)
  Reach-Run (system.next r (system.start_rt_step fifo_ok)) =
      next (Reach-Run r) (other_turn (system.start_rt_step fifo_ok) tt)
  Reach-Run (system.next r (system.wake_step now planned p q)) =
      next (Reach-Run r) (other_turn (system.wake_step now planned p q) tt)
  Reach-Run (system.next r (system.fetch_step job rest h e)) =
      next (Reach-Run r) (other_turn (system.fetch_step job rest h e) tt)
  Reach-Run (system.next r (system.compute_step job buffer h e k)) =
      next (Reach-Run r) (other_turn (system.compute_step job buffer h e k) tt)
  Reach-Run (system.next r (system.check_step job targets actions h e)) =
      next (Reach-Run r) (other_turn (system.check_step job targets actions h e) tt)
  Reach-Run (system.next r (system.commit_step job now targets actions h e)) =
      next (Reach-Run r) (other_turn (system.commit_step job now targets actions h e) tt)
  Reach-Run (system.next r (system.release_step job elapsed h e)) =
      next (Reach-Run r) (other_turn (system.release_step job elapsed h e) tt)
  Reach-Run (system.next r (system.finish_step job h e)) =
      next (Reach-Run r) (other_turn (system.finish_step job h e) tt)
