-- ===== src/Lib.antt =====
-- RobotBrain: the node that runs a walking policy on a robot. The verification library of
-- src/RobotBrain.
--
-- The parts and how they interact. `main` loads the configuration, starts the ROS node and runs the
-- gRPC server, which owns the brain. Four kinds of threads meet in the brain: the control thread calls
-- `ControlLoopStep` every period, the gRPC thread calls `ProcessRobotTask`, the ROS executor fills the
-- sensor cache, and one worker of a thread pool runs the inference tasks that the control thread
-- submits. Two atomics hold them together: `is_inferring_` admits one task at a time, and
-- `task_generation_` makes the results of older tasks void. The gRPC thread also reads the brain and the
-- node for the status messages.
--
-- The files:
-- - Base, Base/Bools, Base/Lists, Base/Int, Base/Vec3: shared names, tests, lists with indices, signed
--   integers and triples.
-- - Float: `float` and `double` as type parameters with their operations, and the IEEE 754 laws that
--   the theorems on bounds assume; Float/Order: `std::clamp` and the limited step; Float/Fixed: a
--   format that meets the laws, on which the tests run; Float/Exact: arithmetic without rounding, with
--   the integers as an example in Float/Integer.
-- - ThreadPool (src/RobotBrain/src/infra/thread_pool.cpp): `create` is the constructor, `enqueue` is
--   `enqueue`, `take` and `finish` are the two halves of a worker's loop body, `request_stop` is
--   `shutdown` up to its joins. ThreadPool/Runs: the runs of a pool; ThreadPool/Shutdown: the loop of
--   one worker and what a stop does; ThreadPool/Joins: `shutdown` with its joins, and `~ThreadPool`;
--   ThreadPool/Drains: the workers after a stop, in any order.
-- - Jitter (`UpdateJitter` and `GetJitterPercentiles` of src/RobotBrain/src/core/ros_node.cpp), with
--   Jitter/Ring, Jitter/Sorting and Jitter/Quantiles; Timer (the loop of `RegisterRealtimeTick`), with
--   Timer/Drift; Timer/Thread (its thread, from the start to the join in `~RosNode`), with Timer/Stop.
-- - BufferPool (src/RobotBrain/include/engine/infra/buffer_pool.hpp), with BufferPool/Ownership, and
--   BufferPool/Stock, where the buffers are taken up to order.
-- - Ros (the cache and the publisher of src/RobotBrain/src/core/ros_node.cpp), with Ros/Cache, and
--   Ros/Gravity, where the projected gravity is compared with the rotation that it stands for.
-- - Brain (src/RobotBrain/src/business/ai_brain.cpp): Brain/Tasks is `ProcessRobotTask`, Brain/Motion
--   `RampVelocityCommand`, `DetectFall` and `ApplyRateLimit`, Brain/Observation `BuildObservation`,
--   Brain/Control `ControlLoopStep`, Brain/Inference the task that it submits; Brain/Limits,
--   Brain/Falls, Brain/Ramp, Brain/Watchdog, Brain/Race, Brain/Lifetime, Brain/Observation/Writes and
--   Brain/Observation/Layout are about them.
-- - Config (src/RobotBrain/include/engine/infra/config_manager.hpp and the mapping in
--   src/RobotBrain/src/main.cpp), with Config/Load (`LoadConfig`), Config/Sections,
--   Config/Sizes and Config/Failures.
-- - System: the threads as a step relation on the brain, the node and the pool; System/Ticks,
--   System/Invariant, System/Safety, System/Preemption, System/Overtaking,
--   System/Delays and System/Frames are about its runs. System/Spec is what the threads promise
--   together, a slot for one frame and a generation; System/Spec/Refines compares the two, with
--   System/Spec/Slot and System/Spec/Frame. System/Progress is the worker as a function that goes on, and
--   System/Liveness its steps among those of the other threads;
--   System/Buffers lets its tasks borrow from the tensor pool.
-- - System/Fine: the same threads with finer steps. System/Fine/Tick cuts `ControlLoopStep`, and
--   System/Fine/Task `ProcessRobotTask`, at each access to what another thread can change;
--   System/Fine/Whole takes the runs of System as some of these, System/Fine/Shadow, System/Fine/Held,
--   System/Fine/TickFlag and System/Fine/Flag are about the flag, System/Fine/Safety about the limits
--   and System/Fine/Refines about System/Spec.
-- - Server (src/RobotBrain/src/core/task_session.cpp and grpc_server.cpp): the sessions and their tags;
--   Server/Status is `BuildStatusMessage`; Server/Rounds is `HandleRpcs` as a loop that runs;
--   Server/Shutdown is `~GrpcServer`; Server/Lifetime, Server/Listeners and Server/Report are about
--   them.
-- - Robot (task_session.cpp again): the server beside the threads, as one step relation, where the
--   handlers of the sessions call the brain; Robot/Parts, Robot/Open, Robot/Shown, Robot/Told,
--   Robot/History, Robot/Silence and Robot/Silence/Frames are about it.
-- - Startup (src/RobotBrain/src/main.cpp and `GrpcServer::Run`): `main` as a chain of calls that
--   can throw, or stay in the loop over the queue, which only an exception leaves; Startup/Endings is about it.
-- - Logging (src/RobotBrain/include/engine/infra/logger_setup.hpp): what `InitLogger` sets.
-- - Tests and its children: a small robot and the theorems applied to it.
--
-- State and operations. Each class is a record with the fields that its methods change; a method is a
-- function from the state to the state. What a method reads from outside is an argument: the time, the
-- message, the tag that completes, the output of the policy. A mutex makes a function one step. In System
-- a tick and a task are one step each, and the inference task is cut into the computation, the comparison
-- of generations, the commit and the release of the flag; System/Fine cuts the tick and the task, too. The
-- joint vectors are lists; a read past the end, undefined in the source, gives 0, and a write past the
-- end changes nothing. Numbers are natural numbers; 64-bit counters wrap.
--
-- Bounds and fuel. The loop over the seconds of a `timespec` has its nanoseconds as fuel, of which each
-- round takes a whole second; the loop of a worker after a stop has fuel for one more round than
-- there are tasks. Both are enough, by the theorems on them.
--
-- Not modelled: the log lines; the generated protocol code; ROS topics and executors; the locking of
-- memory; and the tools around the node. The policy network is not in the repository and is a
-- parameter, and so are how the calls out of `main` end and what spdlog does with a threshold.
-- Accesses without a lock are taken as single steps, and the vectors of the brain that two threads
-- can write are written in one; so are the publication of a joint command and the copy of it that
-- the status messages show, which in the source are two accesses, between which a status message can
-- be read. An exception of the policy is one that derives from `std::exception`, the only kind that
-- the inference task catches. What a task of the inference pool finds while the members of a brain
-- are destroyed is not modelled. The handlers of the sessions run on the one thread that serves the
-- queue, so that in Robot a task and a status message never meet; a message is read from the brain
-- in one step.
pub mod Base
pub mod Float
pub mod ThreadPool
pub mod Jitter
pub mod Timer
pub mod BufferPool
pub mod Robot
pub mod Ros
pub mod Brain
pub mod Config
pub mod Logging
pub mod Startup
pub mod System
pub mod Server
pub mod Tests
