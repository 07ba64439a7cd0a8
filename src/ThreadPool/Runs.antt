-- ===== src/ThreadPool/Runs.antt =====
-- Runs of the pool: any interleaving of submitters, workers and `shutdown()`, with the tasks that
-- were accepted and those that were started, in order.
use robot_brain.Base.{
  ℕ, zero, suc, ◌≤◌, ◌<◌, ◌≡◌, refl, sym, ap, ◌∙◌, ◌↔◌, none, some, List, [], ◌∷◌, ◌++◌, arith,
  length, length-append, get_or, set,
}
use mathlib.Core.List.{append_assoc}
use robot_brain.ThreadPool.{
  ThreadPool, Worker, waiting, running, returned, Outcome, create, enqueue, take_task, take, finish,
  request_stop,
}

pub record History (T : Type 0) : Type 0 where
  pub pool : ThreadPool T
  pub accepted : List T
  pub started : List T

module _ {T : Type 0} where
  -- The task that a worker has begun between two moments.
  abbrev pub begun : Worker T → Worker T → List T
  begun waiting (running t) = t ∷ []
  begun waiting waiting = []
  begun waiting returned = []
  begun (running t) w = []
  begun returned w = []

  pub data Step (h : History T) : History T → Type 0 where
    submit :
        {q : ThreadPool T} (t : T)
        → enqueue h.pool t ≡ some q
        → Step h (record h { pool = q; accepted = h.accepted ++ t ∷ [] })
    refuse : (t : T) → enqueue h.pool t ≡ none → Step h h
    take_step :
        (i : ℕ)
        → Step h (record h {
          pool = take i h.pool;
          started =
              h.started
              ++ begun
                  (get_or h.pool.workers i returned)
                  (get_or (take i h.pool).workers i returned);
        })
    finish_step : (i : ℕ) (o : Outcome) → Step h (record h { pool = finish i o h.pool })
    stop_step : Step h (record h { pool = request_stop h.pool })

  pub data Reach (threads max_queue : ℕ) : History T → Type 0 where
    start :
        Reach threads max_queue
          (record { pool = create threads max_queue; accepted = []; started = [] })
    next : {h k : History T} → Reach threads max_queue h → Step h k → Reach threads max_queue k

  pub record IsFifo (max_queue : ℕ) (h : History T) : Type 0 where
    pub cap : h.pool.max_queue ≡ max_queue
    pub bounded : length h.pool.tasks ≤ max_queue
    pub ordered : h.accepted ≡ h.started ++ h.pool.tasks

  pub enqueue-some :
      (p q : ThreadPool T) (t : T)
      → enqueue p t ≡ some q
      → (length p.tasks < p.max_queue) × (q ≡ record p { tasks = p.tasks ++ t ∷ [] })
  unfolding enqueue
  enqueue-some p q t e = ground arith

  pub take-cons :
      (i : ℕ) (p : ThreadPool T) (t : T) (ts : List T)
      → get_or p.workers i returned ≡ waiting
      → p.tasks ≡ t ∷ ts
      → take i p ≡ record p { workers = set p.workers i (running t); tasks = ts }
  unfolding take
  take-cons i p t ts w e = rw (w, e)

  pub finish-running :
      (i : ℕ) (o : Outcome) (p : ThreadPool T) (t : T)
      → get_or p.workers i returned ≡ running t
      → finish i o p ≡ record p { workers = set p.workers i waiting; futures = (t, o) ∷ p.futures }
  unfolding finish
  finish-running i o p t e = rw e

  begun-take_task :
      (w : Worker T) (p : ThreadPool T) → p.tasks ≡ begun w (take_task w p).0 ++ (take_task w p).1
  unfolding take_task
  begun-take_task waiting p = ground arith
  begun-take_task (running t) p = refl
  begun-take_task returned p = refl

  get_or-set :
      (ws : List (Worker T)) (i : ℕ) (v : Worker T)
      → (get_or ws i returned ≡ returned → v ≡ returned)
      → get_or (set ws i v) i returned ≡ v
  get_or-set [] i v h = sym (h refl)
  get_or-set (w ∷ ws) zero v h = refl
  get_or-set (w ∷ ws) (suc i) v h = get_or-set ws i v h

  take_task-returned :
      (w : Worker T) (p : ThreadPool T) → w ≡ returned → (take_task w p).0 ≡ returned
  unfolding take_task
  take_task-returned w p e = rw e refl

  IsFifo-create :
      (threads max_queue : ℕ)
      → IsFifo max_queue (record { pool = create threads max_queue; accepted = []; started = [] })
  unfolding create
  IsFifo-create threads max_queue = record { cap = refl; bounded = omega arith; ordered = refl }

  Step-IsFifo :
      {max_queue : ℕ} {h k : History T} → Step h k → IsFifo max_queue h → IsFifo max_queue k
  unfolding take finish request_stop
  Step-IsFifo {h = h} (submit {q} t e) v =
      let (room, shape) = enqueue-some h.pool q t e in
      record {
        cap = ground arith;
        bounded = ground (arith, length-append h.pool.tasks (t ∷ []));
        ordered = ground (arith, append_assoc h.started h.pool.tasks (t ∷ []));
      }
  Step-IsFifo (refuse t e) v = v
  Step-IsFifo {h = h} (take_step i) v =
      let w = get_or h.pool.workers i returned in
      let (v₁, rest) = take_task w h.pool in
      let now = get_or-set h.pool.workers i v₁ (take_task-returned w h.pool) in
      let split = begun-take_task w h.pool in
      rw now (record {
        cap = v.cap;
        bounded = omega (arith, v.bounded, ap length split, length-append (begun w v₁) rest);
        ordered =
            v.ordered ∙ ap (◌++◌ h.started) split ∙ sym (append_assoc h.started (begun w v₁) rest);
      })
  Step-IsFifo (finish_step i o) v = record { cap = v.cap; bounded = v.bounded; ordered = v.ordered }
  Step-IsFifo stop_step v = record { cap = v.cap; bounded = v.bounded; ordered = v.ordered }

  -- In every run the queue stays within its limit, and the workers begin the tasks in the order in which
  -- they were accepted, each one once: those accepted are those that a worker was seen to go from waiting
  -- to running, in this order, and then those still queued.
  pub Reach-IsFifo :
      {threads max_queue : ℕ} {h : History T} → Reach threads max_queue h → IsFifo max_queue h
  Reach-IsFifo {threads} {max_queue} start = IsFifo-create threads max_queue
  Reach-IsFifo (next r s) = Step-IsFifo s (Reach-IsFifo r)

  -- `enqueue` fails exactly when the queue is full.
  pub enqueue-none_iff :
      (p : ThreadPool T) (t : T) → (enqueue p t ≡ none) ↔ (p.max_queue ≤ length p.tasks)
  unfolding enqueue
  enqueue-none_iff p t = ground arith
