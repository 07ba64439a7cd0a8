-- ===== src/Robot/Open.antt =====
-- The threads of the brain under tasks that may come at any time, and under the clients that can
-- connect to the server.
use robot_brain.Base.{ℕ, ◌≡◌, refl, ◌↔◌, true, List, [], ◌∷◌, ◌++◌}
use robot_brain.Base.Int.{pos}
use robot_brain.Float.{Float, Convert}
use robot_brain.Brain.{BrainConfig, PolicyModel}
use robot_brain.Brain.Tasks.{Task}
use robot_brain.Server
use robot_brain.Server.{
  connect, finish, status_read, task_session, status_session, Tag, Server, Request, create,
  handle_kind, task_event,
}
use robot_brain.System
use robot_brain.System.{
  World, assign, tick_step, task_step, sense_step, start_rt_step, wake_step, fetch_step,
  compute_step, check_step, commit_step, release_step, finish_step,
}
use robot_brain.Robot.{
  Event, brought, Robot, Clocks, call_brain, handle_event, start_robot, complete, inside, Reach,
  start, next, IsOwn,
}
use robot_brain.Robot.Parts.{Reach-world}
use mathlib.Core.Path.{subst}

-- A session waits for the next task.
record IsOpen (tags : List Tag) : Type 0 where
  before : List Tag
  id : ℕ
  after : List Tag
  here : tags ≡ before ++ record { owner = id; kind = task_session; type = connect } ∷ after

module _ {F D H : Type 0} ⦃f : Float F⦄ ⦃d : Float D⦄ ⦃c : Convert F D⦄ where
  -- A run of the whole node that leaves the brain in `w` and a session waiting for the next task.
  record Hosted (policy : PolicyModel F H) (cfg : BrainConfig F) (hidden : H) (now : ℕ)
      (w : World F D H) : Type 0 where
    server : Server F
    events : List (Event F D)
    run : Reach policy cfg hidden now (record { server = server; world = w; events = events })
    is_open : IsOpen server.tags

  -- The next client brings the task.
  task-Hosted :
      {policy : PolicyModel F H} {cfg : BrainConfig F} {hidden : H} {now : ℕ} {w : World F D H}
      (later : ℕ) (t : Task F)
      → Hosted policy cfg hidden now w
      → Hosted policy cfg hidden now (assign policy later t w)
  unfolding handle_event call_brain Server.handle_event handle_kind task_event create
  task-Hosted {policy} later t h =
      let o = h.is_open in
      let caller : Tag = record { owner = o.id; kind = task_session; type = connect } in
      let clocks : Clocks = record { now = later; timestamp = 0 } in
      let request : Request F = record { task = t; interval_ms = pos 0 } in
      record {
        server =
            Server.handle_event caller true request
              (record h.server { tags = o.before ++ o.after });
        events = brought t ∷ h.events;
        run = next h.run (complete o.before caller o.after true clocks request o.here);
        is_open = record {
          before = record { owner = o.id; kind = task_session; type = finish } ∷ [];
          id = h.server.next_id;
          after = o.before ++ o.after;
          here = refl;
        };
      }

  own-Hosted :
      {policy : PolicyModel F H} {cfg : BrainConfig F} {hidden : H} {now : ℕ} {v w : World F D H}
      (s : System.Step policy v w)
      → IsOwn s
      → Hosted policy cfg hidden now v
      → Hosted policy cfg hidden now w
  own-Hosted s own h = record {
    server = h.server;
    events = h.events;
    run = next h.run (inside s own);
    is_open = h.is_open;
  }

  Step-Hosted :
      {policy : PolicyModel F H} {cfg : BrainConfig F} {hidden : H} {now : ℕ} {v w : World F D H}
      → System.Step policy v w
      → Hosted policy cfg hidden now v
      → Hosted policy cfg hidden now w
  Step-Hosted (task_step later t) h = task-Hosted later t h
  Step-Hosted (tick_step later) h = own-Hosted (tick_step later) tt h
  Step-Hosted (sense_step msg) h = own-Hosted (sense_step msg) tt h
  Step-Hosted (start_rt_step ok) h = own-Hosted (start_rt_step ok) tt h
  Step-Hosted (wake_step late planned p q) h = own-Hosted (wake_step late planned p q) tt h
  Step-Hosted (fetch_step job rest i e) h = own-Hosted (fetch_step job rest i e) tt h
  Step-Hosted (compute_step job buffer i e k) h = own-Hosted (compute_step job buffer i e k) tt h
  Step-Hosted (check_step job targets actions i e) h =
      own-Hosted (check_step job targets actions i e) tt h
  Step-Hosted (commit_step job later targets actions i e) h =
      own-Hosted (commit_step job later targets actions i e) tt h
  Step-Hosted (release_step job elapsed i e) h = own-Hosted (release_step job elapsed i e) tt h
  Step-Hosted (finish_step job i e) h = own-Hosted (finish_step job i e) tt h

  Reach-Hosted :
      {policy : PolicyModel F H} {cfg : BrainConfig F} {hidden : H} {now : ℕ} {w : World F D H}
      → System.Reach policy cfg hidden now w
      → Hosted policy cfg hidden now w
  unfolding start_robot Server.start_server create
  Reach-Hosted System.start = record {
    server = Server.start_server;
    events = [];
    run = start;
    is_open = record {
      before = record { owner = 1; kind = status_session; type = status_read } ∷ [];
      id = 0;
      after = [];
      here = refl;
    };
  }
  Reach-Hosted (System.next r s) = Step-Hosted s (Reach-Hosted r)

  -- The interleavings of ticks, sensor messages, inference and tasks that come at any time lead the
  -- brain to a state exactly if some run of the whole node does, in which each task comes with the
  -- completion of a client's connection on the queue.
  pub Reach-world_iff :
      (policy : PolicyModel F H) (cfg : BrainConfig F) (hidden : H) (now : ℕ) (w : World F D H)
      → System.Reach policy cfg hidden now w
        ↔ ((n : Robot F D H) × Reach policy cfg hidden now n × (n.world ≡ w))
  Reach-world_iff policy cfg hidden now w = (
    λ r.
        let h = Reach-Hosted r in
        (record { server = h.server; world = w; events = h.events }, h.run, refl),
    λ found. let (n, r, e) = found in subst (System.Reach policy cfg hidden now) e (Reach-world r),
  )
