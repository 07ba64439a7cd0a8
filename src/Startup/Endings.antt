-- ===== src/Startup/Endings.antt =====
-- How `main` ends.
use Prim.Native.String.{String}
use Prim.Native.String as str
use robot_brain.Base.{
  Bool, true, ℕ, ◌+◌, ◌-◌, ◌≡◌, false, Option, none, some, List, [], ◌∷◌, arith, if◌then◌else◌,
}
use robot_brain.Float.{Float}
use robot_brain.Brain.{BrainConfig}
use robot_brain.Config.{AppConfig, brain_config_of}
use robot_brain.Config.Load.{load_config}
use robot_brain.Startup.{
  Host, Action, spin_started, server_refused, fatal, brain_made, ros_shut_down, spin_joined,
  queue_made, queue_drained, brain_destroyed, aborted, Program, config_of, resolve_path, main,
}

abbrev both : Bool → Bool → Bool
both true b = b
both false b = false

module _ {F : Type 0} where
  -- The configurations of the brains that were made.
  abbrev pub brains : List (Action F) → List (BrainConfig F)
  brains [] = []
  brains (brain_made cfg ∷ rest) = cfg ∷ brains rest
  brains (_ ∷ rest) = brains rest

  abbrev pub fatals : List (Action F) → ℕ
  fatals [] = 0
  fatals (fatal ∷ rest) = 1 + fatals rest
  fatals (_ ∷ rest) = fatals rest

  abbrev pub refusals : List (Action F) → ℕ
  refusals [] = 0
  refusals (server_refused ∷ rest) = 1 + refusals rest
  refusals (_ ∷ rest) = refusals rest

  abbrev pub starts : List (Action F) → ℕ
  starts [] = 0
  starts (spin_started ∷ rest) = 1 + starts rest
  starts (_ ∷ rest) = starts rest

  abbrev pub joins : List (Action F) → ℕ
  joins [] = 0
  joins (spin_joined ∷ rest) = 1 + joins rest
  joins (_ ∷ rest) = joins rest

  abbrev pub queues : List (Action F) → ℕ
  queues [] = 0
  queues (queue_made ∷ rest) = 1 + queues rest
  queues (_ ∷ rest) = queues rest

  abbrev pub drains : List (Action F) → ℕ
  drains [] = 0
  drains (queue_drained ∷ rest) = 1 + drains rest
  drains (_ ∷ rest) = drains rest

  -- The brains that are alive after some actions.
  abbrev pub alive : List (Action F) → ℕ
  alive [] = 0
  alive (brain_made cfg ∷ rest) = alive rest + 1
  alive (brain_destroyed ∷ rest) = alive rest - 1
  alive (_ ∷ rest) = alive rest

  -- How many brains were alive when ROS was shut down, with the node that calls their tick.
  abbrev pub alive_at_shutdown : List (Action F) → ℕ
  alive_at_shutdown [] = 0
  alive_at_shutdown (ros_shut_down ∷ rest) = alive rest
  alive_at_shutdown (_ ∷ rest) = alive_at_shutdown rest

  abbrev pub shutdowns : List (Action F) → ℕ
  shutdowns [] = 0
  shutdowns (ros_shut_down ∷ rest) = 1 + shutdowns rest
  shutdowns (_ ∷ rest) = shutdowns rest

  abbrev pub aborts : List (Action F) → ℕ
  aborts [] = 0
  aborts (aborted ∷ rest) = 1 + aborts rest
  aborts (_ ∷ rest) = aborts rest

pub data Ending (F : Type 0) : Type 0 where
  uncaught failed refused : Ending F
  -- The node works: the queue is served, and `main` does not end.
  serves : BrainConfig F → Ending F
  -- An exception leaves a handler.
  broken : BrainConfig F → Ending F

module _ {F : Type 0} ⦃f : Float F⦄ where
  abbrev pub served_by : Host F → BrainConfig F → Ending F
  served_by h cfg = if h.handler_throws then broken cfg else serves cfg

  -- With the package directory and the configuration at hand.
  abbrev pub ending_with : Host F → String → AppConfig F → Ending F
  ending_with h share c =
      if both h.makes_node h.starts_spin
      then (if h.starts_server
          then (if both h.makes_pool h.makes_brain
              then served_by h (brain_config_of (resolve_path share c.policy_model_path) c)
              else failed)
          else refused)
      else failed

  abbrev pub ending_in : Host F → String → Option (AppConfig F) → Ending F
  ending_in h share none = failed
  ending_in h share (some c) = ending_with h share c

  abbrev pub ending_from : Host F → Option String → Ending F
  ending_from h none = failed
  ending_from h (some share) =
      ending_in h share (config_of (load_config (h.file (str.◌++◌ share "/config.yaml"))))

  -- What should come of `main`, from what the calls out of the program do.
  abbrev pub ending_of : Host F → Option String → Ending F
  ending_of h share = if both h.opens_log h.starts_ros then ending_from h share else uncaught

  abbrev pub made : Ending F → List (BrainConfig F)
  made (serves cfg) = cfg ∷ []
  made (broken cfg) = cfg ∷ []
  made _ = []

  abbrev pub is_failed : Ending F → ℕ
  is_failed failed = 1
  is_failed (broken cfg) = 1
  is_failed _ = 0

  abbrev pub is_refused : Ending F → ℕ
  is_refused refused = 1
  is_refused _ = 0

  abbrev pub is_aborted : Ending F → ℕ
  is_aborted uncaught = 1
  is_aborted _ = 0

  abbrev pub is_serving : Ending F → Bool
  is_serving (serves cfg) = true
  is_serving _ = false

  abbrev pub still : Ending F → ℕ
  still e = if is_serving e then 1 else 0

  -- The program `p` is over, or serves the queue, as the ending `e` says.
  pub record IsOver (e : Ending F) (p : Program F) : Type 0 where
    pub brain : brains p.actions ≡ made e
    pub logged : fatals p.actions ≡ is_failed e
    pub refusal : refusals p.actions ≡ is_refused e
    pub joined : joins p.actions + still e ≡ starts p.actions
    pub joinable : p.joinable ≡ is_serving e
    pub down : shutdowns p.actions + is_aborted e + still e ≡ 1
    pub abort : aborts p.actions ≡ is_aborted e
    pub drained : drains p.actions + still e ≡ queues p.actions
    pub alive_now : alive p.actions ≡ still e
    pub gone : alive_at_shutdown p.actions ≡ 0

  -- The fields, one by one.
  main-brains : (h : Host F) → brains (main h).actions ≡ made (ending_of h h.share)
  unfolding main
  main-brains h = ground arith

  main-fatals : (h : Host F) → fatals (main h).actions ≡ is_failed (ending_of h h.share)
  unfolding main
  main-fatals h = ground arith

  main-refusals : (h : Host F) → refusals (main h).actions ≡ is_refused (ending_of h h.share)
  unfolding main
  main-refusals h = ground arith

  main-joins :
      (h : Host F) → joins (main h).actions + still (ending_of h h.share) ≡ starts (main h).actions
  unfolding main
  main-joins h = ground arith

  main-joinable : (h : Host F) → (main h).joinable ≡ is_serving (ending_of h h.share)
  unfolding main
  main-joinable h = ground arith

  main-shutdowns :
      (h : Host F)
      → shutdowns (main h).actions + is_aborted (ending_of h h.share) + still (ending_of h h.share)
        ≡ 1
  unfolding main
  main-shutdowns h = ground arith

  main-aborts : (h : Host F) → aborts (main h).actions ≡ is_aborted (ending_of h h.share)
  unfolding main
  main-aborts h = ground arith

  main-drains :
      (h : Host F) → drains (main h).actions + still (ending_of h h.share) ≡ queues (main h).actions
  unfolding main
  main-drains h = ground arith

  main-alive : (h : Host F) → alive (main h).actions ≡ still (ending_of h h.share)
  unfolding main
  main-alive h = ground arith

  main-alive_at_shutdown : (h : Host F) → alive_at_shutdown (main h).actions ≡ 0
  unfolding main
  main-alive_at_shutdown h = ground arith

  -- However the calls that it makes end: an exception before the `try` block, from the logger or from
  -- the start of ROS, aborts the process. Else `main` makes just one brain, with the configuration of
  -- the file, if all calls up to the loop over the queue succeed, and else none. If no exception leaves a
  -- handler of that loop, `main` stays in it: the brain is alive and the spin thread runs, and nothing is
  -- drained, joined or shut down. In the other cases it logs one fatal error if a call or a handler
  -- throws, and otherwise none; it is refused a server if that call fails after all before it succeeded;
  -- it shuts ROS down once, and joins the spin thread if it had started it; the completion queue is
  -- drained if it was made, and a brain that was made is gone before ROS is shut down.
  pub main-IsOver : (h : Host F) → IsOver (ending_of h h.share) (main h)
  main-IsOver h = record {
    brain = main-brains h;
    logged = main-fatals h;
    refusal = main-refusals h;
    joined = main-joins h;
    joinable = main-joinable h;
    down = main-shutdowns h;
    abort = main-aborts h;
    drained = main-drains h;
    alive_now = main-alive h;
    gone = main-alive_at_shutdown h;
  }
