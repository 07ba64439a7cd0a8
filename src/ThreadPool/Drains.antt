-- ===== src/ThreadPool/Drains.antt =====
-- The end of a pool with any number of workers, after `stop_` is set: every order in which the workers
-- can take their turns while `shutdown()` joins them.
use robot_brain.Base.{
  ℕ, zero, suc, ◌+◌, ◌*◌, ◌<◌, ◌≤◌, ◌≡◌, ◌≢◌, ◌⊎◌, inl, inr, refl, ap, ◌∙◌, true, List, [], ◌∷◌,
  arith, length, get_or, set,
}
use robot_brain.ThreadPool.{
  ThreadPool, Worker, waiting, running, returned, Outcome, value, take, finish,
}
use robot_brain.ThreadPool.Runs.{take-cons, finish-running}
use robot_brain.ThreadPool.Shutdown.{take-stop}

module _ {T : Type 0} where
  -- A worker that is not blocked: after the stop, one that waits is woken, and one in a task ends it.
  pub data Turn (p : ThreadPool T) : ThreadPool T → Type 0 where
    take_turn : (i : ℕ) → get_or p.workers i returned ≡ waiting → Turn p (take i p)
    finish_turn :
        (i : ℕ) (t : T) (o : Outcome)
        → get_or p.workers i returned ≡ running t
        → Turn p (finish i o p)

  pub data Turns (p : ThreadPool T) : ℕ → ThreadPool T → Type 0 where
    none_yet : Turns p 0 p
    one_more : {n : ℕ} {q r : ThreadPool T} → Turns p n q → Turn q r → Turns p (suc n) r

  -- The turns that a worker has left, besides two for each task in the queue.
  abbrev pub weight : Worker T → ℕ
  weight waiting = 1
  weight (running t) = 2
  weight returned = 0

  abbrev pub weights : List (Worker T) → ℕ
  weights [] = 0
  weights (w ∷ ws) = weight w + weights ws

  abbrev pub turns_left : ThreadPool T → ℕ
  turns_left p = 2 * length p.tasks + weights p.workers

  abbrev in_task : Worker T → ℕ
  in_task (running t) = 1
  in_task w = 0

  abbrev pub in_tasks : List (Worker T) → ℕ
  in_tasks [] = 0
  in_tasks (w ∷ ws) = in_task w + in_tasks ws

  -- The tasks that are ended, under way or queued.
  abbrev pub accounted : ThreadPool T → ℕ
  accounted p = length p.futures + in_tasks p.workers + length p.tasks

  weights-set :
      (ws : List (Worker T)) (i : ℕ) (v : Worker T)
      → get_or ws i returned ≢ returned
      → weights (set ws i v) + weight (get_or ws i returned) ≡ weights ws + weight v
  weights-set [] i v n = absurd (n refl)
  weights-set (w ∷ ws) zero v n = omega arith
  weights-set (w ∷ ws) (suc i) v n = omega (arith, weights-set ws i v n)

  in_tasks-set :
      (ws : List (Worker T)) (i : ℕ) (v : Worker T)
      → get_or ws i returned ≢ returned
      → in_tasks (set ws i v) + in_task (get_or ws i returned) ≡ in_tasks ws + in_task v
  in_tasks-set [] i v n = absurd (n refl)
  in_tasks-set (w ∷ ws) zero v n = omega arith
  in_tasks-set (w ∷ ws) (suc i) v n = omega (arith, in_tasks-set ws i v n)

  weight-le-weights : (ws : List (Worker T)) (i : ℕ) → weight (get_or ws i returned) ≤ weights ws
  weight-le-weights [] i = omega arith
  weight-le-weights (w ∷ ws) zero = omega arith
  weight-le-weights (w ∷ ws) (suc i) = omega (arith, weight-le-weights ws i)

  -- A worker that has not returned.
  find_worker :
      (ws : List (Worker T)) → 0 < weights ws → (i : ℕ) × (get_or ws i returned ≢ returned)
  find_worker [] h = absurd (omega arith)
  find_worker (waiting ∷ ws) h = (0, λ e. cc)
  find_worker (running t ∷ ws) h = (0, λ e. cc)
  find_worker (returned ∷ ws) h = let (i, n) = find_worker ws (omega (arith, h)) in (suc i, n)

  all_returned : (ws : List (Worker T)) → weights ws ≡ 0 → (i : ℕ) → get_or ws i returned ≡ returned
  all_returned [] e i = refl
  all_returned (returned ∷ ws) e zero = refl
  all_returned (returned ∷ ws) e (suc i) = all_returned ws (omega (arith, e)) i
  all_returned (waiting ∷ ws) e i = absurd (omega (arith, e))
  all_returned (running t ∷ ws) e i = absurd (omega (arith, e))

  -- Nothing is queued, or somebody is there to take it.
  abbrev pub IsServed : ThreadPool T → Type 0
  IsServed p = (p.tasks ≡ []) ⊎ (0 < weights p.workers)

  -- One turn: what it costs, and what it leaves alone.
  record IsTurn (p q : ThreadPool T) : Type 0 where
    stop : q.stop ≡ true
    served : IsServed q
    cost : turns_left p ≡ suc (turns_left q)
    kept : accounted q ≡ accounted p

  take-IsTurn :
      (i : ℕ) (p : ThreadPool T) (ts : List T)
      → p.tasks ≡ ts
      → p.stop ≡ true
      → get_or p.workers i returned ≡ waiting
      → IsTurn p (take i p)
  take-IsTurn i p [] e s w =
      let there : get_or p.workers i returned ≢ returned = λ r. cc in
      let weighed = weights-set p.workers i returned there in
      let counted = in_tasks-set p.workers i returned there in
      let before : weight (get_or p.workers i returned) ≡ 1 = rw w refl in
      let idle : in_task (get_or p.workers i returned) ≡ 0 = rw w refl in
      rw (take-stop (λ t. value) i p s w e) (record {
        stop = s;
        served = inl refl;
        cost = omega (arith, weighed, before, ap length e);
        kept = omega (arith, counted, idle, ap length e);
      })
  take-IsTurn i p (t ∷ ts) e s w =
      let there : get_or p.workers i returned ≢ returned = λ r. cc in
      let weighed = weights-set p.workers i (running t) there in
      let counted = in_tasks-set p.workers i (running t) there in
      let before : weight (get_or p.workers i returned) ≡ 1 = rw w refl in
      let idle : in_task (get_or p.workers i returned) ≡ 0 = rw w refl in
      rw (take-cons i p t ts w e) (record {
        stop = s;
        served = inr (omega (arith, weighed, before));
        cost = omega (arith, weighed, before, ap length e);
        kept = omega (arith, counted, idle, ap length e);
      })

  finish-IsTurn :
      (i : ℕ) (t : T) (o : Outcome) (p : ThreadPool T)
      → p.stop ≡ true
      → get_or p.workers i returned ≡ running t
      → IsTurn p (finish i o p)
  finish-IsTurn i t o p s w =
      let there : get_or p.workers i returned ≢ returned = λ r. cc in
      let weighed = weights-set p.workers i waiting there in
      let counted = in_tasks-set p.workers i waiting there in
      let before : weight (get_or p.workers i returned) ≡ 2 = rw w refl in
      let busy : in_task (get_or p.workers i returned) ≡ 1 = rw w refl in
      rw (finish-running i o p t w) (record {
        stop = s;
        served = inr (omega (arith, weighed, before, weight-le-weights p.workers i));
        cost = omega (arith, weighed, before);
        kept = omega (arith, counted, busy);
      })

  Turn-IsTurn : {p q : ThreadPool T} → Turn p q → p.stop ≡ true → IsTurn p q
  Turn-IsTurn {p} (take_turn i w) s = take-IsTurn i p p.tasks refl s w
  Turn-IsTurn {p} (finish_turn i t o w) s = finish-IsTurn i t o p s w

  -- Every worker has returned, and the queue is empty.
  pub record IsEnded (p : ThreadPool T) : Type 0 where
    pub empty : p.tasks ≡ []
    pub gone : (i : ℕ) → get_or p.workers i returned ≡ returned

  worker-turns :
      (i : ℕ) (w : Worker T) (p : ThreadPool T)
      → get_or p.workers i returned ≡ w
      → w ≢ returned
      → (q : ThreadPool T) × Turn p q
  worker-turns i waiting p e n = (take i p, take_turn i e)
  worker-turns i (running t) p e n = (finish i value p, finish_turn i t value e)
  worker-turns i returned p e n = absurd (n refl)

  go_further :
      (k : ℕ) (p : ThreadPool T)
      → weights p.workers ≡ k
      → IsServed p
      → IsEnded p ⊎ ((q : ThreadPool T) × Turn p q)
  go_further zero p e (inl empty) = inl (record { empty = empty; gone = all_returned p.workers e })
  go_further zero p e (inr some_left) = absurd (omega (arith, e))
  go_further (suc k) p e served =
      let (i, n) = find_worker p.workers (omega (arith, e)) in inr (worker-turns i _ p refl n)

  record IsOnItsWay (p : ThreadPool T) (n : ℕ) (q : ThreadPool T) : Type 0 where
    stop : q.stop ≡ true
    served : IsServed q
    cost : n + turns_left q ≡ turns_left p
    kept : accounted q ≡ accounted p

  Turns-IsOnItsWay :
      {p q : ThreadPool T} {n : ℕ} → Turns p n q → p.stop ≡ true → IsServed p → IsOnItsWay p n q
  Turns-IsOnItsWay none_yet s v = record { stop = s; served = v; cost = omega arith; kept = refl }
  Turns-IsOnItsWay (one_more r t) s v =
      let i = Turns-IsOnItsWay r s v in
      let j = Turn-IsTurn t i.stop in
      record {
        stop = j.stop;
        served = j.served;
        cost = omega (arith, i.cost, j.cost);
        kept = j.kept ∙ i.kept;
      }

  -- After the stop, if nothing is queued or some worker has not returned, then in whatever order the
  -- workers take their turns: each turn brings the end nearer by one, two turns being left for a task
  -- in the queue, two for a worker in a task and one for a worker that waits; the tasks ended, under
  -- way and queued are as many as before; and either every worker has returned with the queue empty,
  -- or some worker has a turn.
  pub shutdown_ends :
      {p q : ThreadPool T} {n : ℕ}
      → Turns p n q
      → p.stop ≡ true
      → IsServed p
      → (n + turns_left q ≡ turns_left p)
        × (accounted q ≡ accounted p)
        × (IsEnded q ⊎ ((r : ThreadPool T) × Turn q r))
  shutdown_ends {q = q} r s v =
      let i = Turns-IsOnItsWay r s v in
      (i.cost, i.kept, go_further (weights q.workers) q refl i.served)
