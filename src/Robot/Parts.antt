-- ===== src/Robot/Parts.antt =====
-- What one event does to the whole node, and the node as a server beside the threads of the brain.
use robot_brain.Base.{
  ℕ, suc, ◌≡◌, refl, ◌∙◌, ap, Bool, true, false, not, List, [], ◌∷◌, length, if◌then◌else◌,
}
use robot_brain.Float.{Float, Convert}
use robot_brain.Brain.{BrainConfig, PolicyModel}
use robot_brain.Brain.Tasks.{Task}
use robot_brain.Server
use robot_brain.Server.Status.{RobotStatus}
use robot_brain.Server.{
  EventType, connect, status_read, status_write, status_alarm, Kind, task_session, status_session,
  Tag, Server, Request, is_finished, find_session, handle_kind, task_event, status_event, create,
  reset, schedule_next_write,
}
use robot_brain.System
use robot_brain.System.{World, assign, task_step}
use robot_brain.Robot.{
  Event, brought, written, Robot, Clocks, say, call_brain, handle_event, start_robot, complete,
  inside, Reach, start, next,
}

-- The tasks among the events.
unfoldable pub tasks_of : {F D : Type 0} → List (Event F D) → List (Task F)
tasks_of [] = []
tasks_of (brought t ∷ es) = t ∷ tasks_of es
tasks_of (written m ∷ es) = tasks_of es

-- The messages among the events.
unfoldable pub messages_of : {F D : Type 0} → List (Event F D) → List (RobotStatus F D)
messages_of [] = []
messages_of (brought t ∷ es) = messages_of es
messages_of (written m ∷ es) = m ∷ messages_of es

module _ {F D H : Type 0} ⦃f : Float F⦄ ⦃d : Float D⦄ ⦃c : Convert F D⦄ where
  -- What an event does: nothing outside the sessions, or a message, or a task.
  pub data Answered (policy : PolicyModel F H) (t : Clocks) (r : Request F) (n : Robot F D H)
      : Robot F D H → Type 0 where
    silent :
        {s : Server F}
        → s.assigned ≡ n.server.assigned
        → s.written ≡ n.server.written
        → Answered policy t r n (record n { server = s })
    told :
        {s : Server F}
        → s.assigned ≡ n.server.assigned
        → s.written ≡ suc n.server.written
        → Answered policy t r n (record (say t n) { server = s })
    tasked :
        {s : Server F}
        → s.assigned ≡ r.task ∷ n.server.assigned
        → s.written ≡ n.server.written
        → Answered policy t r n (record n {
          server = s;
          world = assign policy t.now r.task n.world;
          events = brought r.task ∷ n.events;
        })

  kind-Answered :
      (k : Kind) (e : EventType) (i : ℕ) (policy : PolicyModel F H) (t : Clocks) (r : Request F)
      (n : Robot F D H)
      → Answered policy t r n
          (record (call_brain k e i policy t r n) { server = handle_kind k e i r n.server })
  unfolding call_brain handle_kind task_event status_event create reset schedule_next_write
  kind-Answered task_session connect i policy t r n = tasked refl refl
  kind-Answered status_session status_read i policy t r n = told refl refl
  kind-Answered status_session status_alarm i policy t r n =
      alarm (is_finished (find_session i n.server.sessions))
    where
      alarm :
          (b : Bool)
          → Answered policy t r n (record (if not b then say t n else n) {
            server = if not b then Server.write_status i n.server else n.server;
          })
      alarm true = silent refl refl
      alarm false = told refl refl
  kind-Answered task_session _ i policy t r n = silent refl refl
  kind-Answered status_session _ i policy t r n = silent refl refl

  -- An event does at most one of two things outside the sessions: a client's connection hands its
  -- task to the brain and counts it, and the read and the alarm of a status stream write one message
  -- and count that.
  pub handle_event-Answered :
      (tag : Tag) (ok : Bool) (policy : PolicyModel F H) (t : Clocks) (r : Request F)
      (n : Robot F D H)
      → Answered policy t r n (handle_event tag ok policy t r n)
  unfolding handle_event Server.handle_event reset
  handle_event-Answered tag true policy t r n =
      kind-Answered tag.kind tag.type tag.owner policy t r n
  handle_event-Answered tag false policy t r n = silent refl refl

  Answered-world :
      {policy : PolicyModel F H} {t : Clocks} {r : Request F} {m n : Robot F D H}
      {cfg : BrainConfig F} {hidden : H} {now : ℕ}
      → Answered policy t r m n
      → System.Reach policy cfg hidden now m.world
      → System.Reach policy cfg hidden now n.world
  unfolding say
  Answered-world (silent a w) h = h
  Answered-world (told a w) h = h
  Answered-world {t = t} {r = r} (tasked a w) h = System.next h (task_step t.now r.task)

  -- The brain of the whole node runs as the brain of System does.
  pub Reach-world :
      {policy : PolicyModel F H} {cfg : BrainConfig F} {hidden : H} {now : ℕ} {n : Robot F D H}
      → Reach policy cfg hidden now n
      → System.Reach policy cfg hidden now n.world
  unfolding start_robot
  Reach-world start = System.start
  Reach-world {policy} (next r (complete before tag after ok t q e)) =
      Answered-world (handle_event-Answered tag ok policy t q _) (Reach-world r)
  Reach-world (next r (inside s own)) = System.next (Reach-world r) s

  -- The sessions of the whole node run as those of Server do.
  pub Reach-server :
      {policy : PolicyModel F H} {cfg : BrainConfig F} {hidden : H} {now : ℕ} {n : Robot F D H}
      → Reach policy cfg hidden now n
      → Server.Reach n.server
  unfolding start_robot handle_event
  Reach-server start = Server.start
  Reach-server (next r (complete before tag after true t q e)) =
      Server.next (Reach-server r) (Server.complete before tag after true q e)
  Reach-server (next r (complete before tag after false t q e)) =
      Server.next (Reach-server r) (Server.complete before tag after false q e)
  Reach-server (next r (inside s own)) = Reach-server r

  -- Every message that the sessions count is one that was written.
  pub Reach-written :
      {policy : PolicyModel F H} {cfg : BrainConfig F} {hidden : H} {now : ℕ} {n : Robot F D H}
      → Reach policy cfg hidden now n
      → n.server.written ≡ length (messages_of n.events)
  unfolding start_robot Server.start_server create messages_of
  Reach-written start = refl
  Reach-written {policy} (next r (complete before tag after ok t q e)) =
      go (handle_event-Answered tag ok policy t q _) (Reach-written r)
    where
      go :
          {m n : Robot F D H}
          → Answered policy t q m n
          → m.server.written ≡ length (messages_of m.events)
          → n.server.written ≡ length (messages_of n.events)
      go (silent a w) h = w ∙ h
      go (told a w) h = unfold say in w ∙ ap suc h
      go (tasked a w) h = w ∙ h
  Reach-written (next r (inside s own)) = Reach-written r
