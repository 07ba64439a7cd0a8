-- ===== src/Tests/Parts.antt =====
-- The theorems on the parts, each at one small input.
use robot_brain.Base.{◌==◌, if◌then◌else◌, ◌+◌, ◌⊎◌, inr, false, ℕ, ◌≡◌, refl, true, [], ◌∷◌, arith}
use robot_brain.Float.Fixed.{Fixed, fixed_float, fixed_convert}
use robot_brain.ThreadPool.{ThreadPool, create, enqueue, take_task, take}
use robot_brain.ThreadPool.{Outcome, value, exception, running}
use robot_brain.ThreadPool.Shutdown.{IsDrained}
use robot_brain.ThreadPool.Joins.{destroy, destroy-IsDrained}
use robot_brain.ThreadPool.Runs as pool_runs
use robot_brain.ThreadPool.Drains.{
  IsEnded, Turn, turns_left, accounted, none_yet, one_more, take_turn, shutdown_ends,
}
use robot_brain.Jitter.{get_jitter_percentiles}
use robot_brain.Jitter.Ring.{IsRecent, update_all, update_all-IsRecent}
use robot_brain.Timer.{Timespec, total_ns, rounds, period_of}
use robot_brain.Timer.Drift.{rounds_no_drift}
use robot_brain.Timer.Thread
use robot_brain.Brain.{BrainConfig}
use robot_brain.Brain.Lifetime.{register_tick, IsStopped, register_tick-IsStopped}
use robot_brain.Jitter
use robot_brain.BufferPool.Ownership as owners
use robot_brain.Float.Integer.{integer_float, integer_convert, integer-IsExact}
use robot_brain.Base.Vec3.{vec3}
use robot_brain.Base.Int.{ℤ, ◌+ℤ◌, ◌*ℤ◌}
use robot_brain.Ros.Gravity.{to_body, down, imu_callback-gravity}
use robot_brain.Ros.{
  Imu, RosNode, imu_callback, narrow_quaternion, new_ros_node, get_latest_proprioception,
}
use robot_brain.Ros.Cache.{IsSized, receive_all, joint_state, imu, receive_all_lem}
use robot_brain.Server.{start_server}
use robot_brain.Server
use robot_brain.Server.{Request, handle_event, task_session, status_session, connect, status_read}
use robot_brain.BufferPool.{acquire}
use robot_brain.BufferPool
use robot_brain.Base.Int.{pos}
use robot_brain.Server.Lifetime.{IsPaired, Reach-IsPaired}
use robot_brain.Tests.{config, num, walk, joints, upright}

abbrev pool : ThreadPool ℕ
pool = create 2 3

abbrev history : pool_runs.History ℕ
history = record {
  pool = take 1 (record pool { tasks = 7 ∷ 8 ∷ [] });
  accepted = 7 ∷ 8 ∷ [];
  started = 7 ∷ [];
}

-- Two tasks are submitted, and the second worker takes one.
history-Reach : pool_runs.Reach 2 3 history
unfolding create enqueue take take_task
history-Reach =
    pool_runs.next
      (pool_runs.next (pool_runs.next pool_runs.start (pool_runs.submit 7 refl))
        (pool_runs.submit 8 refl))
      (pool_runs.take_step 1)

Reach-IsFifo_example : pool_runs.IsFifo 3 history
Reach-IsFifo_example = pool_runs.Reach-IsFifo history-Reach

abbrev loaded : ThreadPool ℕ
loaded = record pool { tasks = 7 ∷ 8 ∷ []; stop = true }

shutdown_ends_example :
    (1 + turns_left (take 0 loaded) ≡ turns_left loaded)
    × (accounted (take 0 loaded) ≡ accounted loaded)
    × (IsEnded (take 0 loaded) ⊎ ((r : ThreadPool ℕ) × Turn (take 0 loaded) r))
unfolding create
shutdown_ends_example =
    shutdown_ends (one_more none_yet (take_turn 0 refl)) refl (inr (omega arith))

update_all-IsRecent_example : IsRecent (num 3 ∷ num 5 ∷ []) (update_all (num 3 ∷ num 5 ∷ []))
update_all-IsRecent_example = update_all-IsRecent (num 3 ∷ num 5 ∷ [])

abbrev midnight : Timespec
midnight = record { tv_sec = 0; tv_nsec = 990_000_000 }

rounds_no_drift_example :
    total_ns
      (rounds (period_of 20) (midnight ∷ midnight ∷ []) (Jitter.init {D = Fixed}, midnight)).1
    ≡ 1_030_000_000
rounds_no_drift_example =
    rounds_no_drift 20 (midnight ∷ midnight ∷ []) (Jitter.init {D = Fixed}) midnight

-- The node is destroyed while the thread sleeps for the first time.
abbrev at : Thread.Reading
at = record { fifo_ok = false; clock = midnight }

abbrev threaded : BrainConfig Fixed
threaded = record config { rt_enabled = true }

register_tick-IsStopped_example :
    let t =
      Thread.run
        (at ∷ at ∷ [])
        (register_tick threaded (Thread.unregistered (Jitter.init {D = Fixed}))) in
    IsStopped true t (Thread.run (at ∷ at ∷ at ∷ []) (Thread.request_stop t))
register_tick-IsStopped_example =
    register_tick-IsStopped threaded (Jitter.init {D = Fixed}) (at ∷ at ∷ []) (at ∷ at ∷ at ∷ [])
      (omega arith)

receive_all_lem_example :
    IsSized {F = Fixed} {D = Fixed} 2
      (receive_all (imu upright ∷ joint_state joints ∷ []) (new_ros_node 2))
    × ((get_latest_proprioception {F = Fixed} {D = Fixed}
          (receive_all (imu upright ∷ joint_state joints ∷ []) (new_ros_node 2))).valid
        ≡ true)
receive_all_lem_example = receive_all_lem 2 (imu upright ∷ joint_state joints ∷ [])

abbrev lent : owners.Client
lent = record {
  pool = (acquire (BufferPool.create 1 47)).1;
  held = (acquire (BufferPool.create 1 47)).0 ∷ [];
}

lent_run : owners.Reach 1 47 lent
lent_run = owners.next owners.start owners.acquire_step

Reach-IsOwned_example : owners.IsOwned 1 lent
Reach-IsOwned_example = owners.Reach-IsOwned lent_run

abbrev request : Request Fixed
request = record { task = walk; interval_ms = pos 100 }

-- A client connects and sends its task.
Reach-IsPaired_example : IsPaired (
    handle_event
      (record { owner = 0; kind = task_session; type = connect })
      true
      request
      (record start_server {
        tags = record { owner = 1; kind = status_session; type = status_read } ∷ [];
      }))
unfolding start_server Server.create
Reach-IsPaired_example = Reach-IsPaired (
    Server.next Server.start (
      Server.complete (record { owner = 1; kind = status_session; type = status_read } ∷ [])
        (record { owner = 0; kind = task_session; type = connect }) [] true request refl))

-- Upside down.
abbrev turned : Imu ℤ
turned = record {
  angular_velocity = vec3 (pos 0) (pos 0) (pos 0);
  orientation = record { w = pos 0; x = pos 1; y = pos 0; z = pos 0 };
}

abbrev overturned : RosNode ℤ ℤ
overturned = imu_callback turned (new_ros_node 2)

imu_callback-gravity_example :
    overturned.latest_gravity ≡ to_body (narrow_quaternion {F = ℤ} turned.orientation) down
unfolding narrow_quaternion ◌+ℤ◌ ◌*ℤ◌
imu_callback-gravity_example = imu_callback-gravity integer-IsExact turned (new_ros_node 2) refl

-- A pool of one worker, which is in task 5 while 7 and 8 wait.
abbrev in_task : ThreadPool ℕ
in_task = record (create 1 3) { workers = running 5 ∷ []; tasks = 7 ∷ 8 ∷ [] }

abbrev outcome_of : ℕ → Outcome
outcome_of t = if t == 7 then exception else value

destroy-IsDrained_example :
    IsDrained outcome_of 0 (5 ∷ 7 ∷ 8 ∷ []) in_task (destroy outcome_of in_task)
unfolding create
destroy-IsDrained_example = destroy-IsDrained outcome_of in_task refl refl (λ e. cc)
