-- ===== src/ThreadPool/Joins.antt =====
-- `shutdown()` with its joins, and `~ThreadPool()`. A worker that is joined goes on from where it
-- stands until it returns; the workers are taken one after the other, which for a pool of one worker
-- is all there is.
use robot_brain.Base.{
  ℕ, zero, suc, ◌<◌, ◌≡◌, ◌≢◌, refl, true, false, List, [], ◌∷◌, ◌++◌, arith, length, get_or, set,
  get_or-set_self, length-set, if◌then◌else◌,
}
use robot_brain.ThreadPool.{
  ThreadPool, Worker, waiting, running, returned, Outcome, finish, request_stop,
}
use robot_brain.ThreadPool.Runs.{finish-running}
use robot_brain.ThreadPool.Shutdown.{worker_loop, IsDrained, settled, worker_loop-IsDrained}

-- The task that a worker is in.
abbrev pub under_way : {T : Type 0} → Worker T → List T
under_way (running t) = t ∷ []
under_way w = []

module _ {T : Type 0} (run : T → Outcome) where
  -- From the call of its task, or from the head of its loop, to its return.
  unfoldable pub go_on : Worker T → ℕ → ThreadPool T → ThreadPool T
  go_on waiting i p = worker_loop run (suc (length p.tasks)) i p
  go_on (running t) i p = worker_loop run (suc (length p.tasks)) i (finish i (run t) p)
  go_on returned i p = p

  unfoldable pub join : ℕ → ThreadPool T → ThreadPool T
  unfolding go_on
  join i p = go_on (get_or p.workers i returned) i p

  -- `for (auto& w : workers_) if (w.joinable()) w.join();`
  unfoldable pub join_all : ℕ → ThreadPool T → ThreadPool T
  unfolding join
  join_all zero p = p
  join_all (suc i) p = join i (join_all i p)

  unfoldable pub shutdown : ThreadPool T → ThreadPool T
  unfolding join_all
  shutdown p = join_all (length p.workers) (request_stop p)

  -- `~ThreadPool()`
  unfoldable pub destroy : ThreadPool T → ThreadPool T
  unfolding shutdown
  destroy p = if p.stop then p else shutdown p

  go_on-IsDrained :
      (w : Worker T) (p : ThreadPool T)
      → get_or p.workers 0 returned ≡ w
      → w ≢ returned
      → p.stop ≡ true
      → 0 < length p.workers
      → let q = go_on w 0 p in
        (q.tasks ≡ [])
        × (get_or q.workers 0 returned ≡ returned)
        × (q.futures ≡ settled run (under_way w ++ p.tasks) p.futures)
  unfolding go_on
  go_on-IsDrained waiting p e n s h =
      let d =
        worker_loop-IsDrained run (suc (length p.tasks)) 0 p p.tasks s h e refl (omega arith) in
      (d.empty, d.gone, d.ran)
  go_on-IsDrained (running t) p e n s h =
      let q : ThreadPool T = record p {
        workers = set p.workers 0 waiting;
        futures = (t, run t) ∷ p.futures;
      } in
      let idle = get_or-set_self p.workers 0 waiting returned h in
      let d =
        worker_loop-IsDrained run (suc (length p.tasks)) 0 q p.tasks s
          (omega (arith, length-set p.workers 0 waiting)) idle refl (omega arith) in
      rw (finish-running 0 (run t) p t e) (d.empty, d.gone, d.ran)
  go_on-IsDrained returned p e n s h = absurd (n refl)

  -- For a pool of one worker that has not been stopped, the destructor runs the task under way, if
  -- there is one, and every task in the queue, in order and each once, and makes their futures good;
  -- then the worker has returned.
  pub destroy-IsDrained :
      (p : ThreadPool T)
      → length p.workers ≡ 1
      → p.stop ≡ false
      → get_or p.workers 0 returned ≢ returned
      → IsDrained run 0 (under_way (get_or p.workers 0 returned) ++ p.tasks) p (destroy p)
  unfolding destroy request_stop
  destroy-IsDrained p one going n =
      let p₁ : ThreadPool T = record p { stop = true } in
      let (empty, gone, ran) =
        go_on-IsDrained (get_or p.workers 0 returned) p₁ refl n refl (omega (arith, one)) in
      rw (going, one) (record { empty = empty; gone = gone; ran = ran })
