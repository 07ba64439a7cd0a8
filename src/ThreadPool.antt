-- ===== src/ThreadPool.antt =====
-- src/RobotBrain/src/infra/thread_pool.cpp: a fixed set of workers over a bounded queue of tasks.
-- Each function is what one thread does while it holds the mutex, or one atomic store.
pub mod Runs
pub mod Shutdown
pub mod Joins
pub mod Drains
use robot_brain.Base.{
  ℕ, Bool, true, false, ◌≡◌, Option, none, some, List, [], ◌∷◌, ◌++◌, leb, if◌then◌else◌, length,
  set, get_or, replicate,
}

-- What the promise of a task holds once the task has ended.
pub data Outcome : Type 0 where
  value exception : Outcome

pub data Worker (T : Type 0) : Type 0 where
  waiting : Worker T
  running : T → Worker T
  returned : Worker T

pub record ThreadPool (T : Type 0) : Type 0 where
  pub workers : List (Worker T)
  pub tasks : List T
  pub max_queue : ℕ
  pub stop : Bool
  -- The futures made good so far, the latest first.
  pub futures : List (T × Outcome)

module _ {T : Type 0} where
  unfoldable pub create : ℕ → ℕ → ThreadPool T
  create threads max_queue = record {
    workers = replicate threads waiting;
    tasks = [];
    max_queue = max_queue;
    stop = false;
    futures = [];
  }

  -- `none` is `std::nullopt`.
  unfoldable pub enqueue : ThreadPool T → T → Option (ThreadPool T)
  enqueue p t =
      if leb p.max_queue (length p.tasks)
      then none
      else some (record p { tasks = p.tasks ++ t ∷ [] })

  -- A waiting worker whose wait predicate `stop_ || !tasks_.empty()` is false goes on waiting.
  unfoldable pub wake : Bool → List T → Worker T × List T
  wake stop (t ∷ rest) = (running t, rest)
  wake true [] = (returned, [])
  wake false [] = (waiting, [])

  -- The loop body of one worker up to the call of the task.
  unfoldable pub take_task : Worker T → ThreadPool T → Worker T × List T
  unfolding wake
  take_task waiting p = wake p.stop p.tasks
  take_task w p = (w, p.tasks)

  unfoldable pub take : ℕ → ThreadPool T → ThreadPool T
  unfolding take_task
  take i p =
      let (w, rest) = take_task (get_or p.workers i returned) p in
      record p { workers = set p.workers i w; tasks = rest }

  -- The wrapper of `enqueue` catches whatever the task throws, so the worker goes round its loop.
  unfoldable pub settle : Worker T → Outcome → ThreadPool T → Worker T × List (T × Outcome)
  settle (running t) o p = (waiting, (t, o) ∷ p.futures)
  settle w o p = (w, p.futures)

  unfoldable pub finish : ℕ → Outcome → ThreadPool T → ThreadPool T
  unfolding settle
  finish i o p =
      let (w, fs) = settle (get_or p.workers i returned) o p in
      record p { workers = set p.workers i w; futures = fs }

  -- `shutdown()` up to its joins.
  unfoldable pub request_stop : ThreadPool T → ThreadPool T
  request_stop p = record p { stop = true }
