-- ===== src/Tests/Services.antt =====
-- The theorems on the sessions of the server, a pool that lends and takes back, and the start-up.
use robot_brain.Base.{All, suc, ◌≡◌, refl, true, false, some, none, List, [], ◌∷◌, inl}
use robot_brain.Base.Int.{pos}
use robot_brain.Float.Fixed.{Fixed, fixed_float, fixed_convert}
use robot_brain.BufferPool
use robot_brain.BufferPool.{BufferPool, pooled, temporary, acquire, release}
use robot_brain.BufferPool.Stock.{release-acquire}
use robot_brain.Server
use robot_brain.Server.{
  Server, Tag, Request, Reach, handle_event, start_server, task_session, status_session, connect,
  status_read,
}
use robot_brain.Server.Listeners as listeners
use robot_brain.Server.Listeners.{IsExpectedTag, listening, Reach-expected, Serving-listening}
use robot_brain.Config.{Node}
use robot_brain.Startup.{Host, main}
use robot_brain.Startup.Endings.{IsOver, ending_of, main-IsOver}
use robot_brain.Tests.{walk}

abbrev request : Request Fixed
request = record { task = walk; interval_ms = pos 100 }

-- A client connects.
abbrev connected : Tag
connected = record { owner = 0; kind = task_session; type = connect }

abbrev waits : List Tag
waits = record { owner = 1; kind = status_session; type = status_read } ∷ []

abbrev served : Server Fixed
served = handle_event connected true request (record start_server { tags = waits })

Serving-listening_example : listening status_session served.tags ≡ 1
unfolding start_server Server.create
Serving-listening_example =
    Serving-listening status_session
      (listeners.next waits connected [] true request listeners.start refl (inl refl))

served_run : Reach served
unfolding start_server Server.create
served_run = Server.next Server.start (Server.complete waits connected [] true request refl)

Reach-expected_example : All IsExpectedTag served.tags
Reach-expected_example = Reach-expected served_run

abbrev spare : BufferPool
spare = BufferPool.create 2 47

release-acquire_example :
    let (h, q) = acquire spare in
    release h q ≡ (elim spare.pool [
      | [] ↦ record spare { next = suc spare.next; freed = spare.next ∷ spare.freed }
      | _ ↦ spare
    ])
unfolding BufferPool.create
release-acquire_example = release-acquire spare refl

abbrev node : Node Fixed
node = record {
  is_scalar_root = false;
  is_scalar = λ section. false;
  has = λ section. false;
  as_string = λ section key old. old;
  as_int = λ section key old. old;
  as_bool = λ section key old. old;
  as_float = λ section key old. old;
  has_key = λ section key. false;
  as_floats = λ section key. none;
}

-- All starts up, and then an exception leaves a handler.
abbrev host : Host Fixed
host = record {
  opens_log = true;
  starts_ros = true;
  share = some "/opt/robot";
  file = λ path. some node;
  makes_node = true;
  starts_spin = true;
  makes_pool = true;
  makes_brain = true;
  starts_server = true;
  handler_throws = true;
}

main-IsOver_example : IsOver (ending_of host (some "/opt/robot")) (main host)
main-IsOver_example = main-IsOver host
