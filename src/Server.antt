-- ===== src/Server.antt =====
-- src/RobotBrain/src/core/task_session.cpp, task_session.h and grpc_server.cpp: the sessions of the
-- asynchronous server and the tags that they hang on the completion queue. gRPC decides which tag
-- completes next and whether it completed well; both are arguments of a step.
pub mod Status
pub mod Report
pub mod Lifetime
pub mod Listeners
pub mod Rounds
pub mod Shutdown
use robot_brain.Base.{
  ℕ, suc, ◌≡◌, Bool, true, false, not, Option, none, some, List, [], ◌∷◌, ◌++◌, ltb, ◌==◌,
  if◌then◌else◌,
}
use robot_brain.Base.Int.{ℤ, pos, ltb_ℤ}
use robot_brain.Brain.Tasks.{Task}

pub data EventType : Type 0 where
  connect read write finish status_read status_write status_alarm status_finish : EventType

pub data Kind : Type 0 where
  task_session status_session : Kind

-- A session that is alive: its `self_` is set.
pub record Session : Type 0 where
  pub id : ℕ
  pub kind : Kind
  pub finished : Bool
  pub interval_ms : ℤ

-- `SessionEventTag`, with the session that its callback captured.
pub record Tag : Type 0 where
  pub owner : ℕ
  pub kind : Kind
  pub type : EventType

pub record Server (F : Type 0) : Type 0 where
  pub sessions : List Session
  pub tags : List Tag
  pub next_id : ℕ
  -- The calls of `ProcessRobotTask`, the latest first.
  pub assigned : List (Task F)
  -- The delays of the alarms that were set, in milliseconds, the latest first.
  pub alarms : List ℤ
  -- How many status messages were written.
  pub written : ℕ

-- What a client's request holds when its event arrives.
pub record Request (F : Type 0) : Type 0 where
  pub task : Task F
  pub interval_ms : ℤ

abbrev pub remove_session : ℕ → List Session → List Session
remove_session i [] = []
remove_session i (s ∷ ss) = if s.id == i then ss else s ∷ remove_session i ss

abbrev pub find_session : ℕ → List Session → Option Session
find_session i [] = none
find_session i (s ∷ ss) = if s.id == i then some s else find_session i ss

abbrev pub set_interval : ℕ → ℤ → List Session → List Session
set_interval i ms [] = []
set_interval i ms (s ∷ ss) =
    if s.id == i then record s { interval_ms = ms } ∷ ss else s ∷ set_interval i ms ss

abbrev pub first_event : Kind → EventType
first_event task_session = connect
first_event status_session = status_read

-- `request_.interval_ms() > 0 ? request_.interval_ms() : 200`
abbrev pub interval_of : Option Session → ℤ
interval_of none = pos 200
interval_of (some x) = if ltb_ℤ (pos 0) x.interval_ms then x.interval_ms else pos 200

abbrev pub is_finished : Option Session → Bool
is_finished none = false
is_finished (some x) = x.finished

module _ {F : Type 0} where
  -- `MakeTag`, with the operation that it is handed to.
  abbrev pub add_tag : ℕ → Kind → EventType → Server F → Server F
  add_tag i k t s = record s { tags = record { owner = i; kind = k; type = t } ∷ s.tags }

  -- `TaskSession::Create` and `StatusSession::Create`
  unfoldable pub create : Kind → Server F → Server F
  create k s =
      let new : Session = record {
        id = s.next_id;
        kind = k;
        finished = false;
        interval_ms = pos 0;
      } in
      add_tag s.next_id k (first_event k)
        (record s { sessions = new ∷ s.sessions; next_id = suc s.next_id })

  -- `self_.reset()`
  unfoldable pub reset : ℕ → Server F → Server F
  reset i s = record s { sessions = remove_session i s.sessions }

  unfoldable pub task_event : EventType → ℕ → Request F → Server F → Server F
  unfolding create reset
  task_event connect i r s =
      add_tag i task_session finish
        (record (create task_session s) { assigned = r.task ∷ (create task_session s).assigned })
  task_event finish i r s = reset i s
  task_event _ i r s = reset i s

  -- `BuildStatusMessage` and `Write`
  abbrev pub write_status : ℕ → Server F → Server F
  write_status i s = add_tag i status_session status_write (record s { written = suc s.written })

  unfoldable pub schedule_next_write : ℕ → Server F → Server F
  schedule_next_write i s =
      add_tag i status_session status_alarm
        (record s { alarms = interval_of (find_session i s.sessions) ∷ s.alarms })

  unfoldable pub status_event : EventType → ℕ → Request F → Server F → Server F
  unfolding create reset
  status_event status_read i r s =
      write_status i
        (create status_session (record s { sessions = set_interval i r.interval_ms s.sessions }))
  status_event status_write i r s = schedule_next_write i s
  status_event status_alarm i r s =
      if not (is_finished (find_session i s.sessions)) then write_status i s else s
  status_event status_finish i r s = reset i s
  status_event _ i r s = reset i s

  unfoldable pub handle_kind : Kind → EventType → ℕ → Request F → Server F → Server F
  unfolding task_event status_event
  handle_kind task_session t i r s = task_event t i r s
  handle_kind status_session t i r s = status_event t i r s

  -- `HandleEvent`
  unfoldable pub handle_event : Tag → Bool → Request F → Server F → Server F
  unfolding handle_kind reset
  handle_event t true r s = handle_kind t.kind t.type t.owner r s
  handle_event t false r s = reset t.owner s

  -- `HandleRpcs` up to its loop.
  unfoldable pub start_server : Server F
  unfolding create
  start_server = create status_session (
      create task_session
        (record { sessions = []; tags = []; next_id = 0; assigned = []; alarms = []; written = 0 }))

  -- One round of `while (cq_->Next(&raw_tag, &ok))`: the tag leaves the queue, is handled and deleted.
  pub data Step (s : Server F) : Server F → Type 0 where
    complete :
        (before : List Tag) (t : Tag) (after : List Tag) (ok : Bool) (r : Request F)
        → s.tags ≡ before ++ t ∷ after
        → Step s (handle_event t ok r (record s { tags = before ++ after }))

  pub data Reach : Server F → Type 0 where
    start : Reach start_server
    next : {s u : Server F} → Reach s → Step s u → Reach u
