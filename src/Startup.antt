-- ===== src/Startup.antt =====
-- `main` of src/RobotBrain/src/main.cpp and `GrpcServer::Run` of src/RobotBrain/src/core/grpc_server.cpp:
-- the order in which the parts are made, and what happens when one of them fails.
pub mod Endings
use Prim.Native.Char.{code}
use Prim.Native.String.{String}
use Prim.Native.String as str
use robot_brain.Base.{Bool, true, false, Option, none, some, List, [], ◌∷◌, ◌==◌, if◌then◌else◌}
use robot_brain.Float.{Float}
use robot_brain.Brain.{BrainConfig}
use robot_brain.Config.{Node, AppConfig, Loaded, loaded, load_failed, length_error, brain_config_of}
use robot_brain.Config.Load.{load_config}

-- How the calls out of the program end. Each but the last two throws where it does not succeed.
pub record Host (F : Type 0) : Type 0 where
  -- `InitLogger`, which opens the log file.
  pub opens_log : Bool
  -- `rclcpp::init`
  pub starts_ros : Bool
  -- `get_package_share_directory`
  pub share : Option String
  -- `YAML::LoadFile`
  pub file : String → Option (Node F)
  -- The constructor of `RosNode`.
  pub makes_node : Bool
  -- The thread that spins the node.
  pub starts_spin : Bool
  -- The thread pool of the server, with its threads.
  pub makes_pool : Bool
  -- The constructor of `AIBrain`, which loads the policy.
  pub makes_brain : Bool
  -- `BuildAndStart`, which gives a null pointer where it fails.
  pub starts_server : Bool
  -- Whether an exception ever leaves `HandleRpcs`, from the handler of an event.
  pub handler_throws : Bool

pub data Signal : Type 0 where
  sigint sigterm : Signal

pub data Action (F : Type 0) : Type 0 where
  logger_initialised aborted : Action F
  environment_set : (name value : String) → Action F
  handler_installed : Signal → Action F
  ros_initialised node_made spin_started queue_made server_refused pool_made fatal : Action F
  brain_made : BrainConfig F → Action F
  rpcs_entered server_shut_down queue_drained brain_destroyed ros_shut_down spin_joined : Action F

-- What was done so far, the latest first, whether the spin thread runs, and what the server owns.
pub record Program (F : Type 0) : Type 0 where
  pub actions : List (Action F)
  pub joinable : Bool
  -- `cq_`, `server_` and `brain_` of the server.
  pub queue : Bool
  pub server : Bool
  pub brain : Bool
  -- Set by the signal handler, and read by nobody.
  pub shutdown_requested : Bool

-- How a part of the program ends: with a value, by an exception, or not at all, since the loop over the
-- queue goes on.
pub data Result (A : Type 0) : Type 0 where
  finished : A → Result A
  thrown serving : Result A

abbrev pub Attempt : Type 0 → Type 0 → Type 0
Attempt F A = Program F → Result A × Program F

infixl 5 ◌>>=◌ ◌>>◌
abbrev pub ◌>>=◌ : {F A B : Type 0} → Attempt F A → (A → Attempt F B) → Attempt F B
◌>>=◌ m g p =
    let (a, q) = m p in
    elim a [ finished x ↦ g x q | thrown ↦ (thrown, q) | serving ↦ (serving, q) ]

abbrev pub ◌>>◌ : {F A B : Type 0} → Attempt F A → Attempt F B → Attempt F B
m >> k = m >>= λ _. k

module _ {F : Type 0} where
  abbrev pub log : Action F → Program F → Program F
  log a p = record p { actions = a ∷ p.actions }

  abbrev pub perform : Action F → Attempt F Unit
  perform a p = (finished tt, log a p)

  abbrev pub require : {A : Type 0} → Option A → Attempt F A
  require none p = (thrown, p)
  require (some a) p = (finished a, p)

  abbrev pub require_that : Bool → Attempt F Unit
  require_that b p = (if b then finished tt else thrown, p)

  -- `std::thread` and its lambda.
  abbrev pub start_spin : Attempt F Unit
  start_spin p = (finished tt, record (log spin_started p) { joinable = true })

  abbrev pub own_queue : Attempt F Unit
  own_queue p = (finished tt, record (log queue_made p) { queue = true })

  abbrev pub own_server : Attempt F Unit
  own_server p = (finished tt, record p { server = true })

  abbrev pub own_brain : BrainConfig F → Attempt F Unit
  own_brain cfg p = (finished tt, record (log (brain_made cfg) p) { brain = true })

  -- `HandleRpcs`: the loop ends only when the queue is shut down, which only `~GrpcServer` does, and that
  -- is called only when this function is left. So it is left by an exception or never.
  unfoldable pub handle_rpcs : Host F → Attempt F Unit
  handle_rpcs h p = (if h.handler_throws then thrown else serving, log rpcs_entered p)

  -- `SignalHandler`
  unfoldable pub signal_handler : Program F → Program F
  signal_handler p = record p { shutdown_requested = true }

  -- `LoadConfig` ends by an exception, of one type or another, or with a configuration.
  abbrev pub config_of : Loaded F → Option (AppConfig F)
  config_of (loaded c) = some c
  config_of load_failed = none
  config_of length_error = none

-- `if (!path.empty() && path[0] != '/') path = share + "/" + path`
unfoldable pub resolve_path : String → String → String
resolve_path share String.[] = String.[]
resolve_path share (String.◌∷◌ c rest) =
    if code c == b'/' then String.◌∷◌ c rest else str.◌++◌ share (str.◌++◌ "/" (String.◌∷◌ c rest))

module _ {F : Type 0} where
  -- `GrpcServer::Run`: the constructor of the brain starts the control thread.
  unfoldable pub run_server : Host F → BrainConfig F → Attempt F Unit
  unfolding handle_rpcs
  run_server h cfg = do
    own_queue
    if h.starts_server
        then (do
          own_server
          require_that h.makes_pool
          perform pool_made
          require_that h.makes_brain
          own_brain cfg
          handle_rpcs h)
        else perform server_refused

  -- `~GrpcServer`, and then its members, the brain among them.
  unfoldable pub destroy_server : Program F → Program F
  destroy_server p =
      let p₁ = if p.server then log server_shut_down p else p in
      let p₂ = if p.queue then log queue_drained p₁ else p₁ in
      let p₃ = if p.brain then log brain_destroyed p₂ else p₂ in
      record p₃ { queue = false; server = false; brain = false }

  -- `server` is a local variable of the `try` block: it is destroyed at its end, an exception included.
  -- While the queue is served, the end is not reached.
  unfoldable pub with_server : Attempt F Unit → Attempt F Unit
  unfolding destroy_server
  with_server m p =
      let (r, q) = m p in
      elim r [
        | finished x ↦ (finished x, destroy_server q)
        | thrown ↦ (thrown, destroy_server q)
        | serving ↦ (serving, q)
      ]

module _ {F : Type 0} ⦃f : Float F⦄ where
  -- The `try` block of `main`.
  unfoldable pub try_block : Host F → Attempt F Unit
  unfolding run_server with_server resolve_path
  try_block h = do
    share ← require h.share
    config ← require (config_of (load_config (h.file (str.◌++◌ share "/config.yaml"))))
    require_that h.makes_node
    perform node_made
    require_that h.starts_spin
    start_spin
    with_server
        (run_server h (brain_config_of (resolve_path share config.policy_model_path) config))

  -- What is done after the block.
  unfoldable pub clean_up : Program F → Program F
  clean_up p =
      let down = log ros_shut_down p in
      if down.joinable then record (log spin_joined down) { joinable = false } else down

  -- The `catch`, and what comes after the block if that is left.
  unfoldable pub wind_up : Result (Unit {0}) × Program F → Program F
  unfolding clean_up
  wind_up (finished _, p) = clean_up p
  wind_up (thrown, p) = clean_up (log fatal p)
  wind_up (serving, p) = p

  -- When the process starts.
  abbrev pub fresh : Program F
  fresh = record {
    actions = [];
    joinable = false;
    queue = false;
    server = false;
    brain = false;
    shutdown_requested = false;
  }

  -- Up to the `try` block.
  unfoldable pub prepare : Host F → Attempt F Unit
  prepare h = do
    require_that h.opens_log
    perform logger_initialised
    perform (environment_set "http_proxy" "")
    perform (environment_set "https_proxy" "")
    perform (handler_installed sigint)
    perform (handler_installed sigterm)
    require_that h.starts_ros
    perform ros_initialised

  -- Nobody catches what is thrown before the block: the process is aborted.
  unfoldable pub go_on : Host F → Result (Unit {0}) × Program F → Program F
  unfolding try_block wind_up
  go_on h (thrown, p) = log aborted p
  go_on h (finished _, p) = wind_up (try_block h p)
  go_on h (serving, p) = p

  unfoldable pub main : Host F → Program F
  unfolding prepare go_on
  main h = go_on h (prepare h fresh)
