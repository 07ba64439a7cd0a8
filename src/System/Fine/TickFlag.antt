-- ===== src/System/Fine/TickFlag.antt =====
-- The steps of a tick keep the invariant of the flag.
use robot_brain.Base.{
  if◌then◌else◌, ℕ, ◌+◌, ◌≡◌, refl, sym, ap, ◌∙◌, Bool, true, false, ◌∷◌, [], arith, length,
  length-append, if_cases, inl, Option-cases, inr,
}
use robot_brain.Float.{Float, Convert}
use robot_brain.Ros.{Proprioception}
use robot_brain.ThreadPool.{enqueue}
use robot_brain.ThreadPool.Runs.{enqueue-some}
use robot_brain.Brain.{Job, Machine, PolicyModel, RobotState, executing, standing, idle, error}
use robot_brain.Brain.Control.{set_inferring, drop_frame}
use robot_brain.System.Ticks.{detect_reset-Kept, ramp-Kept}
use robot_brain.System.{World, worker, with_brain}
use robot_brain.System.Invariant.{bit, busy}
use robot_brain.System.Fine.Tick.{
  TickPlace, out, timed, lost, fallen, watched, loaded, holding, sensed, settled, ramped, made,
  refused, win_flag, after_sense, enter_state, proceed_tick, after_enqueue,
}
use robot_brain.System.Fine.Task.{TaskPlace}
use robot_brain.System.Fine.Shadow.{is_holding}
use robot_brain.System.Fine.Held.{Held, IsCounted-same, kept-Held}

module _ {F D H : Type 0} ⦃f : Float F⦄ ⦃d : Float D⦄ ⦃c : Convert F D⦄ where
  -- The control thread takes the flag, or gives it back.
  win_flag-Held :
      (now : ℕ) (state : RobotState) (w : World F D H) (p : TickPlace F) (q : TaskPlace F)
      → is_holding p ≡ false
      → Held w p q
      → let (m, p₁) = win_flag now state w.machine in Held (record w { machine = m }) p₁ q
  unfolding win_flag
  win_flag-Held now state w p q h v =
      if_cases (λ (x : Machine F D H × TickPlace F). Held (record w { machine = x.0 }) x.1 q)
        w.machine.brain.is_inferring _ _
        (λ e.
          kept-Held w p out q (drop_frame w.machine.brain) w.machine.ros (sym h) refl refl refl v)
        (λ e.
          let total : length w.machine.pool.tasks + busy (worker w) w.stage
              ≡ bit w.machine.brain.is_inferring =
            rw h at v.inv.flag in
          record {
            inv = record {
              flag = total ∙ ap bit e;
              one_worker = v.inv.one_worker;
              room = v.inv.room;
              begins = v.inv.begins;
              reported = v.inv.reported;
            };
            won = λ _. refl;
            gen = IsCounted-same q w.machine.brain _ refl v.gen;
          })

  release-Held :
      (w : World F D H) (p : TickPlace F) (q : TaskPlace F)
      → is_holding p ≡ true
      → Held w p q
      → Held (with_brain w (set_inferring false w.machine.brain)) out q
  release-Held w p q h v =
      let total : length w.machine.pool.tasks + busy (worker w) w.stage ≡ 0 = rw h at v.inv.flag in
      record {
        inv = record {
          flag = total;
          one_worker = v.inv.one_worker;
          room = v.inv.room;
          begins = v.inv.begins;
          reported = v.inv.reported;
        };
        won = λ e. absurd (cc);
        gen = IsCounted-same q w.machine.brain _ refl v.gen;
      }

  enqueue-Held :
      (job : Job F) (w : World F D H) (q : TaskPlace F)
      → Held w (made job) q
      → let (m, p) = after_enqueue w.machine (enqueue w.machine.pool job) in
        Held (record w { machine = m }) p q
  enqueue-Held job w q v = elim (Option-cases (enqueue w.machine.pool job)) [
    | inl full ↦ rw full (record { inv = v.inv; won = v.won; gen = v.gen })
    | inr (pool, room) ↦
        let (fits, shape) = enqueue-some w.machine.pool pool job room in
        let old : length w.machine.pool.tasks + busy (worker w) w.stage ≡ 0 = v.inv.flag in
        let more = length-append w.machine.pool.tasks (job ∷ []) in
        let now_set : bit w.machine.brain.is_inferring ≡ 1 = ap bit (v.won refl) in
        rw (room, shape)
          (record {
            inv = record {
              flag = omega (arith, old, more, now_set);
              one_worker = v.inv.one_worker;
              room = v.inv.room;
              begins = v.inv.begins;
              reported = v.inv.reported;
            };
            won = λ e. absurd (cc);
            gen = v.gen;
          })
  ]

  after_sense-Held :
      (policy : PolicyModel F H) (now : ℕ) (state : RobotState) (prop : Proprioception F)
      (w : World F D H) (q : TaskPlace F)
      → Held w (sensed now state prop) q
      → let (m, p) = after_sense policy now state prop w.machine in
        Held (record w { machine = m }) p q
  unfolding after_sense
  after_sense-Held policy now state prop w q v =
      let k = detect_reset-Kept policy prop.projected_gravity.v2 w.machine.brain in
      if_cases (λ (x : Machine F D H × TickPlace F). Held (record w { machine = x.0 }) x.1 q)
        prop.valid _ _
        (λ _.
          kept-Held w (sensed now state prop) _ q _ w.machine.ros refl k.flag k.generation
            k.reported v)
        (λ _. release-Held w (sensed now state prop) q refl v)

  timed-Held :
      (now : ℕ) (due : Bool) (w : World F D H) (q : TaskPlace F)
      → Held w (timed now due) q
      → (x : Bool) → Held w (if x then lost now else watched now) q
  timed-Held now due w q v true = record { inv = v.inv; won = v.won; gen = v.gen }
  timed-Held now due w q v false = record { inv = v.inv; won = v.won; gen = v.gen }

  enter_state-Held :
      (now : ℕ) (state : RobotState) (w : World F D H) (q : TaskPlace F)
      → Held w (loaded now state) q
      → let (m, p) = enter_state now state w.machine in Held (record w { machine = m }) p q
  unfolding enter_state
  enter_state-Held now executing w q v =
      win_flag-Held now executing w (loaded now executing) q refl v
  enter_state-Held now standing w q v = win_flag-Held now standing w (loaded now standing) q refl v
  enter_state-Held now idle w q v =
      kept-Held w (loaded now idle) out q w.machine.brain _ refl refl refl refl v
  enter_state-Held now error w q v =
      kept-Held w (loaded now error) out q w.machine.brain _ refl refl refl refl v

  pub tick-Held :
      (policy : PolicyModel F H) (w : World F D H) (p : TickPlace F) (q : TaskPlace F)
      → Held w p q
      → let (m, p₁) = proceed_tick policy p w.machine in Held (record w { machine = m }) p₁ q
  unfolding proceed_tick
  tick-Held policy w out q v = v
  tick-Held policy w (timed now due) q v = timed-Held now due w q v _
  tick-Held policy w (lost now) q v =
      kept-Held w (lost now) _ q _ w.machine.ros refl refl refl refl v
  tick-Held policy w (fallen now) q v =
      kept-Held w (fallen now) _ q _ w.machine.ros refl refl refl refl v
  tick-Held policy w (watched now) q v =
      kept-Held w (watched now) _ q w.machine.brain w.machine.ros refl refl refl refl v
  tick-Held policy w (loaded now state) q v = enter_state-Held now state w q v
  tick-Held policy w (holding now state) q v =
      kept-Held w (holding now state) _ q w.machine.brain w.machine.ros refl refl refl refl v
  tick-Held policy w (sensed now state prop) q v = after_sense-Held policy now state prop w q v
  tick-Held policy w (settled now state prop) q v =
      let k = ramp-Kept now w.machine.brain in
      kept-Held w (settled now state prop) _ q _ w.machine.ros refl k.flag k.generation k.reported v
  tick-Held policy w (ramped state prop) q v =
      kept-Held w (ramped state prop) _ q w.machine.brain w.machine.ros refl refl refl refl v
  tick-Held policy w (made job) q v = enqueue-Held job w q v
  tick-Held policy w refused q v =
      let u = release-Held w refused q refl v in
      kept-Held _ out out q (drop_frame (set_inferring false w.machine.brain)) w.machine.ros refl
        refl refl refl u
