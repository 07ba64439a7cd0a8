-- ===== src/System/Delays.antt =====
-- The delays of the real-time thread, from its wake-ups to the status stream.
use robot_brain.Base.{ℕ, ◌^◌, ◌<◌, ◌≡◌, refl, if_cases, arith}
use robot_brain.Base.{some}
use robot_brain.Base.Int.{sub_ℕ}
use robot_brain.Ros.{
  RosNode, publish_joint_command, joint_state_callback, imu_callback, new_ros_node,
}
use robot_brain.Ros.Cache.{Message, receive, joint_state, imu}
use robot_brain.Brain.{AiBrain, BrainConfig, Machine, PolicyModel, TaskType, emergency_stop}
use robot_brain.Brain.Tasks.{process_robot_task, dispatch, accept, emergency}
use robot_brain.Brain.Inference.{commit}
use robot_brain.Server.Status.{build_status_message}
use robot_brain.System.Ticks.{Ticked, quiet, posed, queued, control_loop_step-Ticked}
use robot_brain.System.{
  World, boot, assign, tick, sense, fetch, run_compute, run_check, run_commit, run_release,
  run_finish, Step, tick_step, task_step, sense_step, start_rt_step, wake_step, start_rt, wake,
  fetch_step, compute_step, check_step, commit_step, release_step, finish_step, Reach, start, next,
}
use robot_brain.Float.{Float, Convert, IsIeee, ◌≼◌, Num}
use robot_brain.Float.Order.{le_of_not_lt}
use robot_brain.Timer.{Timespec, total_ns, jitter_ms, set_scheduling}
use robot_brain.Jitter.{nought}
use robot_brain.Jitter.Quantiles.{
  IsBounded, InOrder, init-IsBounded, update_jitter-IsBounded, IsBounded-InOrder,
}

module _ {D : Type 0} ⦃d : Float D⦄ (laws : IsIeee D) where
  -- A delay is a number and at least 0, whatever the clock says.
  jitter_ms_nonneg :
      (now planned : Timespec)
      → total_ns now < 2 ^ 63
      → total_ns planned < 2 ^ 63
      → ◌≼◌ {F = D} nought (jitter_ms now planned)
  unfolding jitter_ms
  jitter_ms_nonneg now planned p q =
      let raw = d.div (d.of_int (sub_ℕ (total_ns now) (total_ns planned))) (d.lit 1_000_000 0) in
      let num : Num raw =
        laws.div_num _ _
          (laws.of_int_finite (sub_ℕ (total_ns now) (total_ns planned)) (ground arith)
            (ground arith))
          (laws.lit_finite 1_000_000 0 (omega arith))
          (laws.lit_pos 1_000_000 0 (omega arith) (omega arith)) in
      let zero_num = laws.zero_finite.0 in
      if_cases {A = D} (λ x. ◌≼◌ {F = D} nought x) (d.lt raw nought) _ _
        (λ _. laws.le_refl nought zero_num) (λ h. le_of_not_lt laws raw nought num zero_num h)

module _ {F D : Type 0} ⦃f : Float F⦄ ⦃d : Float D⦄ ⦃c : Convert F D⦄ where
  receive-stats :
      (msg : Message D) (r : RosNode F D) → (receive msg r).jitter_stats ≡ r.jitter_stats
  unfolding receive joint_state_callback imu_callback
  receive-stats (joint_state m) r = refl
  receive-stats (imu m) r = refl

module _ {F D H : Type 0} ⦃f : Float F⦄ ⦃d : Float D⦄ ⦃c : Convert F D⦄ (laws : IsIeee D) where
  Ticked-stats : (m n : Machine F D H) → Ticked m n → n.ros.jitter_stats ≡ m.ros.jitter_stats
  unfolding publish_joint_command
  Ticked-stats m n (quiet k) = refl
  Ticked-stats m n (posed k) = refl
  Ticked-stats m n (queued job e k g q) = refl

  dispatch-stats :
      (k : TaskType) (policy : PolicyModel F H) (now : ℕ) (b : AiBrain F D H) (r : RosNode F D)
      → (dispatch k policy now b r).1.jitter_stats ≡ r.jitter_stats
  unfolding dispatch emergency publish_joint_command
  dispatch-stats emergency_stop policy now b r = refl
  dispatch-stats _ policy now b r = refl

  Step-IsBounded :
      {policy : PolicyModel F H} {v w : World F D H}
      → Step policy v w
      → IsBounded v.machine.ros.jitter_stats
      → IsBounded w.machine.ros.jitter_stats
  unfolding tick assign process_robot_task sense start_rt wake fetch run_compute run_check
      run_commit commit run_release run_finish publish_joint_command set_scheduling
  Step-IsBounded {policy} {v} (tick_step now) b =
      rw (Ticked-stats v.machine _ (control_loop_step-Ticked policy now v.machine)) b
  Step-IsBounded {policy} {v} (task_step now t) b =
      rw (dispatch-stats t.task_type policy now (accept t v.machine.brain) v.machine.ros) b
  Step-IsBounded {v = v} (sense_step msg) b = rw (receive-stats msg v.machine.ros) b
  Step-IsBounded (start_rt_step fifo_ok) b = record {
    size = b.size;
    count = b.count;
    samples = b.samples;
    top = b.top;
  }
  Step-IsBounded {v = v} (wake_step now planned p q) b =
      update_jitter-IsBounded laws (jitter_ms now planned) v.machine.ros.jitter_stats
        (jitter_ms_nonneg laws now planned p q) b
  Step-IsBounded (fetch_step job rest h e) b = b
  Step-IsBounded (compute_step job buffer h e k) b = b
  Step-IsBounded (check_step job targets actions h e) b = b
  Step-IsBounded (commit_step job now targets actions h e) b = b
  Step-IsBounded (release_step job elapsed h e) b = b
  Step-IsBounded (finish_step job h e) b = b

  Reach-IsBounded :
      {policy : PolicyModel F H} {cfg : BrainConfig F} {hidden : H} {now : ℕ} {w : World F D H}
      → Reach policy cfg hidden now w
      → IsBounded w.machine.ros.jitter_stats
  unfolding boot new_ros_node
  Reach-IsBounded start = init-IsBounded laws
  Reach-IsBounded (next r s) = Step-IsBounded s (Reach-IsBounded r)

  -- In IEEE 754 arithmetic and in every interleaving, the jitter percentiles that a status message
  -- carries are in order, from 0 up, however early or late the control thread woke.
  pub reported_jitter :
      {policy : PolicyModel F H} {cfg : BrainConfig F} {hidden : H} {now : ℕ} {w : World F D H}
      (timestamp : ℕ)
      → Reach policy cfg hidden now w
      → InOrder (build_status_message timestamp w.machine.brain (some w.machine.ros)).jitter
  unfolding build_status_message
  reported_jitter {w = w} timestamp r =
      IsBounded-InOrder laws w.machine.ros.jitter_stats (Reach-IsBounded r)
