-- ===== src/Robot/Silence.antt =====
-- Sensors that fall silent.
pub mod Frames
use robot_brain.Robot.Silence.Frames.{HasFrame, control_loop_step-HasFrame}
use robot_brain.Base.{
  ℕ, ◌+◌, ◌≤◌, ◌<◌, ◌≡◌, ◌≢◌, refl, sym, ap, ◌∙◌, ◌⊎◌, inl, inr, Bool, true, false, some, List, [],
  ◌∷◌, ◌++◌, length, leb, arith, if_cases,
}
use mathlib.Core.Path.{subst}
use robot_brain.Float.{Float, Convert}
use robot_brain.Ros.{Proprioception, RosNode, get_latest_proprioception, publish_joint_command}
use robot_brain.ThreadPool.{ThreadPool, enqueue}
use robot_brain.Brain.{
  AiBrain, BrainConfig, Job, Machine, PolicyModel, RobotState, idle, executing, error, standing,
  TaskType, emergency_stop,
}
use robot_brain.Brain.Tasks.{Task, process_robot_task, dispatch, accept, emergency}
use robot_brain.Brain.Inference.{commit}
use robot_brain.Brain.Control.{
  watchdog, prepare, make_job, submitted, infer_frame, try_infer, step_in_state, control_loop_step,
  set_inferring,
}
use robot_brain.Server
use robot_brain.Server.{Request}
use robot_brain.System
use robot_brain.System.Ticks.{Ticked, quiet, posed, queued, control_loop_step-Ticked}
use robot_brain.System.Invariant.{Reach-Inv, Inv, bit}
use robot_brain.System.Ticks.{watchdog-Kept}
use robot_brain.System.{
  World, assign, tick, sense, fetch, run_compute, run_check, run_commit, run_release, run_finish,
  tick_step, task_step, sense_step, start_rt_step, wake_step, start_rt, wake, fetch_step,
  compute_step, check_step, commit_step, release_step, finish_step,
}
use robot_brain.Robot.{Robot, Clocks, say, start_robot, Step, complete, inside, Reach, start, next}
use robot_brain.Robot.Parts.{Answered, silent, told, tasked, handle_event-Answered, Reach-world}
use robot_brain.Robot.Told.{IsTold, StateFits, boot-IsTold, assign-IsTold, Own-IsTold}

active :
    {F : Type 0} (ts : List (Task F)) (s : RobotState)
    → StateFits ts s
    → (s ≡ standing) ⊎ (s ≡ executing)
active [] s h = inl h
active (t ∷ ts) s (inl h) = inl h
active (t ∷ ts) s (inr h) = inr h.0

length-zero : {T : Type 0} (xs : List T) → length xs ≡ 0 → xs ≡ []
length-zero [] e = refl
length-zero (x ∷ xs) e = absurd (omega (arith, e))

module _ {F D H : Type 0} where
  -- What the control thread would read of the sensors.
  abbrev pub readings : World F D H → Proprioception F
  readings w = get_latest_proprioception w.machine.ros

module _ {F D H : Type 0} ⦃f : Float F⦄ ⦃d : Float D⦄ ⦃c : Convert F D⦄ where
  -- A step that is no message of a sensor.
  abbrev pub IsMute :
      {policy : PolicyModel F H} {v w : World F D H} → System.Step policy v w → Type 0
  IsMute (sense_step msg) = ⊥
  IsMute _ = Unit

  abbrev pub IsSilent : {policy : PolicyModel F H} {m n : Robot F D H} → Step policy m n → Type 0
  IsSilent (complete before tag after ok t r e) = Unit
  IsSilent (inside s own) = IsMute s

  -- A run in which no sensor sends a message.
  pub data Silent (policy : PolicyModel F H) (n : Robot F D H) : Robot F D H → Type 0 where
    at_once : Silent policy n n
    and_then :
        {m k : Robot F D H}
        → Silent policy n m
        → (s : Step policy m k) → IsSilent s
        → Silent policy n k

  Ticked-readings :
      (m n : Machine F D H)
      → Ticked m n
      → get_latest_proprioception n.ros ≡ get_latest_proprioception m.ros
  unfolding publish_joint_command get_latest_proprioception
  Ticked-readings m n (quiet k) = refl
  Ticked-readings m n (posed k) = refl
  Ticked-readings m n (queued job e k g q) = refl

  assign-readings :
      (policy : PolicyModel F H) (now : ℕ) (t : Task F) (w : World F D H)
      → readings (assign policy now t w) ≡ readings w
  unfolding assign process_robot_task
  assign-readings policy now t w = by_type t.task_type
    where
      by_type :
          (k : TaskType)
          → get_latest_proprioception
              (dispatch k policy now (accept t w.machine.brain) w.machine.ros).1
            ≡ readings w
      by_type emergency_stop =
          unfold dispatch in
          unfold emergency in
          unfold publish_joint_command in unfold get_latest_proprioception in refl
      by_type _ = unfold dispatch in refl

  Step-readings :
      {policy : PolicyModel F H} {v w : World F D H} (s : System.Step policy v w)
      → IsMute s
      → readings w ≡ readings v
  unfolding tick start_rt wake fetch run_compute run_check run_commit commit run_release run_finish
      publish_joint_command get_latest_proprioception
  Step-readings {policy} {v} (tick_step now) q =
      Ticked-readings v.machine _ (control_loop_step-Ticked policy now v.machine)
  Step-readings {policy} {v} (task_step now t) q = assign-readings policy now t v
  Step-readings (sense_step msg) q = absurd q
  Step-readings (start_rt_step fifo_ok) q = refl
  Step-readings (wake_step now planned a b) q = refl
  Step-readings (fetch_step job rest free e) q = refl
  Step-readings (compute_step job buffer held e k) q = refl
  Step-readings (check_step job targets actions held e) q = refl
  Step-readings (commit_step job now targets actions held e) q = refl
  Step-readings (release_step job elapsed held e) q = refl
  Step-readings (finish_step job held e) q = refl

  Answered-readings :
      {policy : PolicyModel F H} {t : Clocks} {r : Request F} {m n : Robot F D H}
      → Answered policy t r m n
      → readings n.world ≡ readings m.world
  unfolding say
  Answered-readings (silent a w) = refl
  Answered-readings (told a w) = refl
  Answered-readings {policy} {t} {r} {m} (tasked a w) = assign-readings policy t.now r.task m.world

  Silent-readings :
      {policy : PolicyModel F H} {n m : Robot F D H}
      → Silent policy n m
      → readings m.world ≡ readings n.world
  Silent-readings at_once = refl
  Silent-readings {policy} (and_then r (complete before tag after ok t q e) h) =
      Answered-readings (handle_event-Answered tag ok policy t q _) ∙ Silent-readings r
  Silent-readings (and_then r (inside s own) h) = Step-readings s h ∙ Silent-readings r

  Silent-Reach :
      {policy : PolicyModel F H} {cfg : BrainConfig F} {hidden : H} {now : ℕ} {n m : Robot F D H}
      → Reach policy cfg hidden now n
      → Silent policy n m
      → Reach policy cfg hidden now m
  Silent-Reach r at_once = r
  Silent-Reach r (and_then q s h) = next (Silent-Reach r q) s

  Answered-IsTold :
      {policy : PolicyModel F H} {t : Clocks} {r : Request F} {m n : Robot F D H}
      → Answered policy t r m n
      → IsTold m.server.assigned m.world.machine.brain
      → IsTold n.server.assigned n.world.machine.brain
  unfolding say
  Answered-IsTold (silent a w) i = rw a i
  Answered-IsTold (told a w) i = rw a i
  Answered-IsTold {policy} {t} {r} {m} (tasked a w) i =
      rw a (assign-IsTold m.server.assigned policy t.now r.task m.world i)

  Reach-IsTold :
      {policy : PolicyModel F H} {cfg : BrainConfig F} {hidden : H} {now : ℕ} {n : Robot F D H}
      → Reach policy cfg hidden now n
      → IsTold n.server.assigned n.world.machine.brain
  unfolding start_robot Server.start_server Server.create
  Reach-IsTold {cfg = cfg} {hidden} {now} start = boot-IsTold cfg hidden now
  Reach-IsTold {policy} (next r (complete before tag after ok t q e)) =
      Answered-IsTold (handle_event-Answered tag ok policy t q _) (Reach-IsTold r)
  Reach-IsTold (next {m = m} r (inside s own)) = Own-IsTold m.server.assigned s own (Reach-IsTold r)

  -- Once both sensors have sent a message, they may fall silent for as long as they like: the first
  -- tick that finds `is_inferring_` clear submits a frame made of the last readings, whatever clients,
  -- threads and clocks have done since.
  pub silence_unnoticed :
      {policy : PolicyModel F H} {cfg : BrainConfig F} {hidden : H} {now : ℕ} {n m : Robot F D H}
      (later : ℕ)
      → Reach policy cfg hidden now n
      → Silent policy n m
      → (readings n.world).valid ≡ true
      → m.world.machine.brain.is_inferring ≡ false
      → HasFrame (readings n.world) (tick policy later m.world).machine
  unfolding tick
  silence_unnoticed {policy} {n = n} {m} later r run v h =
      let still = Silent-readings run in
      let here = Silent-Reach r run in
      let i = Reach-Inv (Reach-world here) in
      let free : bit m.world.machine.brain.is_inferring ≡ 0 = rw h refl in
      subst (λ p. HasFrame p (control_loop_step policy later m.world.machine)) still
        (control_loop_step-HasFrame policy later m.world.machine
          (active m.server.assigned _ (Reach-IsTold here).state) h (ap (λ p. p.valid) still ∙ v)
          (length-zero _ (omega (arith, i.flag, free))) i.room)
