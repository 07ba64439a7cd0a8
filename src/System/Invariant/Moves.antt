-- ===== src/System/Invariant/Moves.antt =====
-- The steps of the control thread, of the gRPC thread, and the start of a task keep the invariant.
use robot_brain.Base.{
  ℕ, suc, ◌+◌, ◌≡◌, refl, sym, ap, ◌∙◌, List, [], ◌∷◌, arith, length, length-append, length-set,
  get_or-set_self,
}
use robot_brain.Float.{Float, Convert}
use robot_brain.ThreadPool.{waiting, running, returned, create}
use robot_brain.ThreadPool.Runs.{enqueue-some, take-cons}
use robot_brain.Brain.{BrainConfig, Job, Machine, PolicyModel, TaskType, emergency_stop, new_brain}
use robot_brain.Brain.Tasks.{Task, dispatch, accept}
use robot_brain.System.Ticks.{Ticked, quiet, posed, queued}
use robot_brain.System.{World, worker, boot, fetch, with_brain, with_ros}
use robot_brain.System.Invariant.Defs.{bit, busy, Inv}

module _ {F D H : Type 0} ⦃f : Float F⦄ ⦃d : Float D⦄ ⦃c : Convert F D⦄ where
  pub boot-Inv : (cfg : BrainConfig F) (hidden : H) (now : ℕ) → Inv {D = D} (boot cfg hidden now)
  unfolding boot new_brain create
  boot-Inv cfg hidden now = record {
    flag = refl;
    one_worker = refl;
    room = refl;
    begins = λ _. refl;
    reported = refl;
  }

  pub tick-Inv :
      (w : World F D H) (m : Machine F D H)
      → Ticked w.machine m
      → Inv w
      → Inv (record w { machine = m })
  tick-Inv w m (quiet k) v = record {
    flag = v.flag ∙ ap bit (sym k.flag);
    one_worker = v.one_worker;
    room = v.room;
    begins = v.begins;
    reported = k.reported ∙ v.reported ∙ sym k.generation;
  }
  tick-Inv w m (posed k) v = record {
    flag = v.flag ∙ ap bit (sym k.flag);
    one_worker = v.one_worker;
    room = v.room;
    begins = v.begins;
    reported = k.reported ∙ v.reported ∙ sym k.generation;
  }
  tick-Inv w m (queued {b} {p} job e k g q) v =
      let (fits, shape) = enqueue-some w.machine.pool p job q in
      let old : length w.machine.pool.tasks + busy (worker w) w.stage ≡ 0 = v.flag ∙ ap bit e in
      let more = length-append w.machine.pool.tasks (job ∷ []) in
      let now_set : bit b.is_inferring ≡ 1 = ap bit k.flag in
      rw shape (record {
        flag = omega (arith, old, more, now_set);
        one_worker = v.one_worker;
        room = v.room;
        begins = v.begins;
        reported = k.reported ∙ v.reported ∙ sym k.generation;
      })

  pub dispatch-Inv :
      (policy : PolicyModel F H) (now : ℕ) (k : TaskType) (t : Task F) (w : World F D H)
      → Inv w
      → let (b, r) = dispatch k policy now (accept t w.machine.brain) w.machine.ros in
        Inv (with_ros (with_brain w b) r)
  unfolding dispatch accept
  dispatch-Inv policy now emergency_stop t w v = record {
    flag = v.flag;
    one_worker = v.one_worker;
    room = v.room;
    begins = v.begins;
    reported = refl;
  }
  dispatch-Inv policy now _ t w v = record {
    flag = v.flag;
    one_worker = v.one_worker;
    room = v.room;
    begins = v.begins;
    reported = refl;
  }

  pub fetch-Inv :
      (w : World F D H) (job : Job F) (rest : List (Job F))
      → worker w ≡ waiting
      → w.machine.pool.tasks ≡ job ∷ rest
      → Inv w
      → Inv (fetch w)
  unfolding fetch
  fetch-Inv w job rest idle e v =
      let total : suc (length rest) + 0 ≡ bit w.machine.brain.is_inferring =
        rw (e, idle) at v.flag in
      let held =
        get_or-set_self w.machine.pool.workers 0 (running job) returned
          (omega (arith, v.one_worker)) in
      rw (take-cons 0 w.machine.pool job rest idle e) (record {
        flag = rw (held, v.begins idle) (omega (arith, total));
        one_worker = length-set w.machine.pool.workers 0 (running job) ∙ v.one_worker;
        room = v.room;
        begins = λ _. v.begins idle;
        reported = v.reported;
      })
