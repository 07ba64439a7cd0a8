-- ===== src/ThreadPool/Shutdown.antt =====
-- `shutdown()` and the destructor: what becomes of the tasks that are queued then, and of those that
-- are submitted later.
use mathlib.Core.Path.{subst}
use mathlib.Core.List.{append-nil, append_assoc}
use robot_brain.Base.{
  ℕ, zero, suc, ◌<◌, ◌≡◌, refl, sym, ap, ◌∙◌, true, some, List, [], ◌∷◌, ◌++◌, arith, length,
  get_or, set, get_or-set_self, length-set,
}
use robot_brain.ThreadPool.{
  ThreadPool, Worker, waiting, running, returned, Outcome, enqueue, take_task, take, finish, settle,
  request_stop,
}
use robot_brain.ThreadPool.Runs.{
  History, Step, submit, refuse, take_step, finish_step, stop_step, enqueue-some, take-cons,
}

module _ {T : Type 0} (run : T → Outcome) where
  -- The `while (true)` of worker `i`, its tasks ending as `run` says; it waits where no task is left
  -- and no stop is requested.
  pub worker_loop : ℕ → ℕ → ThreadPool T → ThreadPool T
  worker_loop zero i p = p
  worker_loop (suc fuel) i p =
      let q = take i p in
      elim (get_or q.workers i returned) [
        | running t ↦ worker_loop fuel i (finish i (run t) q)
        | _ ↦ q
      ]

  -- The futures after the tasks have run in order.
  abbrev pub settled : List T → List (T × Outcome) → List (T × Outcome)
  settled [] fs = fs
  settled (t ∷ ts) fs = settled ts ((t, run t) ∷ fs)

  pub record IsDrained (i : ℕ) (ts : List T) (p q : ThreadPool T) : Type 0 where
    pub empty : q.tasks ≡ []
    pub gone : get_or q.workers i returned ≡ returned
    pub ran : q.futures ≡ settled ts p.futures

  pub take-stop :
      (i : ℕ) (p : ThreadPool T)
      → p.stop ≡ true
      → get_or p.workers i returned ≡ waiting
      → p.tasks ≡ []
      → take i p ≡ record p { workers = set p.workers i returned; tasks = [] }
  unfolding take
  take-stop i p s w e = rw (w, s, e)

  abbrev serve : ℕ → ThreadPool T → T → List T → ThreadPool T
  serve i p t ts = finish i (run t) (record p { workers = set p.workers i (running t); tasks = ts })

  serve_lem :
      (i : ℕ) (p : ThreadPool T) (t : T) (ts : List T)
      → i < length p.workers
      → let q = serve i p t ts in
        (q.stop ≡ p.stop)
        × (q.tasks ≡ ts)
        × (q.futures ≡ (t, run t) ∷ p.futures)
        × (get_or q.workers i returned ≡ waiting)
        × (length q.workers ≡ length p.workers)
  unfolding finish
  serve_lem i p t ts h =
      let held = get_or-set_self p.workers i (running t) returned h in
      let len = length-set p.workers i (running t) in
      rw held (
        refl,
        refl,
        refl,
        get_or-set_self (set p.workers i (running t)) i waiting returned (omega (arith, len)),
        length-set (set p.workers i (running t)) i waiting ∙ len,
      )

  loop-return :
      (fuel i : ℕ) (p q : ThreadPool T)
      → take i p ≡ q
      → get_or q.workers i returned ≡ returned
      → worker_loop (suc fuel) i p ≡ q
  unfolding worker_loop
  loop-return fuel i p q e r =
      let r' = subst (λ x. get_or x.workers i returned ≡ returned) (sym e) r in
      rw (r', worker_loop) e

  loop-run :
      (fuel i : ℕ) (p q : ThreadPool T) (t : T)
      → take i p ≡ q
      → get_or q.workers i returned ≡ running t
      → worker_loop (suc fuel) i p ≡ worker_loop fuel i (finish i (run t) q)
  unfolding worker_loop
  loop-run fuel i p q t e r =
      let r' = subst (λ x. get_or x.workers i returned ≡ running t) (sym e) r in
      rw (r', worker_loop) (ap (λ x. worker_loop fuel i (finish i (run t) x)) e)

  -- Once `stop_` is set, the loop of a waiting worker runs every task that is queued, in order
  -- and each one once, makes its future good with the outcome of its run, and then returns, the
  -- queue empty: fuel for one more round than there are tasks is enough.
  pub worker_loop-IsDrained :
      (fuel i : ℕ) (p : ThreadPool T) (ts : List T)
      → p.stop ≡ true
      → i < length p.workers
      → get_or p.workers i returned ≡ waiting
      → p.tasks ≡ ts
      → length ts < fuel
      → IsDrained i ts p (worker_loop fuel i p)
  worker_loop-IsDrained zero i p ts s h w e f = absurd (omega arith)
  worker_loop-IsDrained (suc fuel) i p [] s h w e f =
      let gone = get_or-set_self p.workers i returned returned h in
      rw (loop-return fuel i p _ (take-stop i p s w e) gone)
        (record { empty = refl; gone = gone; ran = refl })
  worker_loop-IsDrained (suc fuel) i p (t ∷ ts) s h w e f =
      let (stopped, queue, futures, idle, len) = serve_lem i p t ts h in
      let rest =
        worker_loop-IsDrained fuel i (serve i p t ts) ts (stopped ∙ s) (omega arith) idle queue
          (omega arith) in
      let held = get_or-set_self p.workers i (running t) returned h in
      rw (loop-run fuel i p _ t (take-cons i p t ts w e) held)
        (record { empty = rest.empty; gone = rest.gone; ran = rest.ran ∙ ap (settled ts) futures })

module _ {T : Type 0} where
  abbrev pub AllReturned : ThreadPool T → Type 0
  AllReturned p = (i : ℕ) → get_or p.workers i returned ≡ returned

  set-AllReturned :
      (ws : List (Worker T)) (i : ℕ)
      → ((j : ℕ) → get_or ws j returned ≡ returned)
      → (j : ℕ) → get_or (set ws i returned) j returned ≡ returned
  set-AllReturned [] i all j = refl
  set-AllReturned (w ∷ ws) zero all zero = refl
  set-AllReturned (w ∷ ws) zero all (suc j) = all (suc j)
  set-AllReturned (w ∷ ws) (suc i) all zero = all 0
  set-AllReturned (w ∷ ws) (suc i) all (suc j) = set-AllReturned ws i (λ k. all (suc k)) j

  abbrev Kept : History T → History T → Type 0
  Kept h k =
      AllReturned k.pool
      × (k.started ≡ h.started)
      × ((rest : List T) × (k.pool.tasks ≡ h.pool.tasks ++ rest))

  Step-Kept : {h k : History T} → Step h k → AllReturned h.pool → Kept h k
  unfolding take take_task finish settle request_stop
  Step-Kept {h = h} (submit {q} t e) all =
      let shape = (enqueue-some h.pool q t e).1 in
      (λ j. rw shape (all j), refl, (t ∷ [], ap (λ x. x.tasks) shape))
  Step-Kept {h = h} (refuse t e) all = (all, refl, ([], sym (append-nil _)))
  Step-Kept {h = h} (take_step i) all =
      rw (all i) (set-AllReturned h.pool.workers i all, append-nil _, ([], sym (append-nil _)))
  Step-Kept {h = h} (finish_step i o) all =
      rw (all i) (set-AllReturned h.pool.workers i all, refl, ([], sym (append-nil _)))
  Step-Kept stop_step all = (all, refl, ([], sym (append-nil _)))

  pub data Later (h : History T) : History T → Type 0 where
    now : Later h h
    later : {k l : History T} → Later h k → Step k l → Later h l

  Later-Kept : {h k : History T} → Later h k → AllReturned h.pool → Kept h k
  Later-Kept now all = (all, refl, ([], sym (append-nil _)))
  Later-Kept {h = h} (later r s) all =
      let (all₁, same₁, (rest₁, tasks₁)) = Later-Kept r all in
      let (all₂, same₂, (rest₂, tasks₂)) = Step-Kept s all₁ in
      (
        all₂,
        same₂ ∙ same₁,
        (
          rest₁ ++ rest₂,
          tasks₂ ∙ ap (λ x. x ++ rest₂) tasks₁ ∙ append_assoc h.pool.tasks rest₁ rest₂,
        ),
      )

  -- `enqueue` does not look at `stop_`: once every worker has returned, a submitted task is accepted
  -- as long as the queue has room, and whatever happens then, it stays in the queue and no further
  -- task is ever started.
  pub late_task_never_starts :
      (h k : History T) (t : T) (q : ThreadPool T)
      → AllReturned h.pool
      → enqueue h.pool t ≡ some q
      → Later (record h { pool = q; accepted = h.accepted ++ t ∷ [] }) k
      → (k.started ≡ h.started) × ((rest : List T) × (k.pool.tasks ≡ h.pool.tasks ++ t ∷ rest))
  late_task_never_starts h k t q all e r =
      let shape = (enqueue-some h.pool q t e).1 in
      let (_, same, (rest, tasks)) = Later-Kept r (λ j. rw shape (all j)) in
      (
        same,
        (rest, tasks ∙ ap (λ x. x.tasks ++ rest) shape ∙ append_assoc h.pool.tasks (t ∷ []) rest),
      )
