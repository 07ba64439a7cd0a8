-- ===== src/System/Fine/Held.antt =====
-- The invariant of the finer steps, by the shadow of the world.
use robot_brain.Base.{if◌then◌else◌, ◌≡◌, refl, sym, ◌∙◌, Bool, true, false}
use robot_brain.Ros.{RosNode}
use robot_brain.Brain.{AiBrain}
use robot_brain.System.{World, with_brain, with_ros}
use robot_brain.System.Invariant.{bit, Inv}
use robot_brain.System.Fine.Tick.{TickPlace}
use robot_brain.System.Fine.Task.{
  TaskPlace, ready, stored, counted, shown, stood, cleared, posed, going,
}
use robot_brain.System.Fine.Shadow.{is_holding, is_counted, shadow, shadow_brain}

shadow-flag :
    (p : Bool) (a b : Bool) → a ≡ b → bit (if p then false else b) ≡ bit (if p then false else a)
shadow-flag p a b e = rw e refl

module _ {F D H : Type 0} where
  abbrev pub IsCounted : TaskPlace F → AiBrain F D H → Type 0
  IsCounted (counted t gen) b = gen ≡ b.task_generation
  IsCounted q b = Unit

  -- The shadow meets the invariant of System; a thread that holds the flag has set it.
  pub record Held (w : World F D H) (p : TickPlace F) (q : TaskPlace F) : Type 0 where
    pub inv : Inv (shadow (is_holding p) (is_counted q) w)
    pub won : is_holding p ≡ true → w.machine.brain.is_inferring ≡ true
    pub gen : IsCounted q w.machine.brain

  pub IsCounted-same :
      (q : TaskPlace F) (a b : AiBrain F D H)
      → b.task_generation ≡ a.task_generation
      → IsCounted q a
      → IsCounted q b
  IsCounted-same (counted t gen) a b e h = h ∙ sym e
  IsCounted-same ready a b e h = tt
  IsCounted-same (stored t) a b e h = tt
  IsCounted-same (shown t) a b e h = tt
  IsCounted-same stood a b e h = tt
  IsCounted-same cleared a b e h = tt
  IsCounted-same posed a b e h = tt
  IsCounted-same going a b e h = tt

  shadow-reported :
      (ahead : Bool) (w : World F D H) (b : AiBrain F D H)
      → b.task_generation ≡ w.machine.brain.task_generation
      → b.metrics.current_generation ≡ w.machine.brain.metrics.current_generation
      → (let c = (shadow_brain false ahead w.machine.brain) in
          c.metrics.current_generation ≡ c.task_generation)
      → (let c = (shadow_brain false ahead b) in c.metrics.current_generation ≡ c.task_generation)
  shadow-reported true w b g m h = refl
  shadow-reported false w b g m h = m ∙ h ∙ sym g

  -- A step that keeps the flag and the generations, wherever it leads.
  pub moved-Held :
      (w : World F D H) (p p₁ : TickPlace F) (q q₁ : TaskPlace F) (b : AiBrain F D H)
      (r : RosNode F D)
      → is_holding p₁ ≡ is_holding p
      → is_counted q₁ ≡ is_counted q
      → b.is_inferring ≡ w.machine.brain.is_inferring
      → b.task_generation ≡ w.machine.brain.task_generation
      → b.metrics.current_generation ≡ w.machine.brain.metrics.current_generation
      → IsCounted q₁ b
      → Held w p q
      → Held (with_ros (with_brain w b) r) p₁ q₁
  moved-Held w p p₁ q q₁ b r h a fl g m n v = record {
    inv =
        rw (h, a)
          (record {
            flag =
                v.inv.flag
                ∙ shadow-flag (is_holding p) b.is_inferring w.machine.brain.is_inferring fl;
            one_worker = v.inv.one_worker;
            room = v.inv.room;
            begins = v.inv.begins;
            reported = shadow-reported (is_counted q) w b g m v.inv.reported;
          });
    won = λ e. fl ∙ v.won (sym h ∙ e);
    gen = n;
  }

  -- Of the tick.
  pub kept-Held :
      (w : World F D H) (p p₁ : TickPlace F) (q : TaskPlace F) (b : AiBrain F D H) (r : RosNode F D)
      → is_holding p₁ ≡ is_holding p
      → b.is_inferring ≡ w.machine.brain.is_inferring
      → b.task_generation ≡ w.machine.brain.task_generation
      → b.metrics.current_generation ≡ w.machine.brain.metrics.current_generation
      → Held w p q
      → Held (with_ros (with_brain w b) r) p₁ q
  kept-Held w p p₁ q b r h fl g m v =
      moved-Held w p p₁ q q b r h refl fl g m (IsCounted-same q w.machine.brain b g v.gen) v

  -- Of the task: no generation is counted before or after.
  pub told-Held :
      (w : World F D H) (p : TickPlace F) (q q₁ : TaskPlace F) (b : AiBrain F D H) (r : RosNode F D)
      → is_counted q₁ ≡ is_counted q
      → b.is_inferring ≡ w.machine.brain.is_inferring
      → b.task_generation ≡ w.machine.brain.task_generation
      → b.metrics.current_generation ≡ w.machine.brain.metrics.current_generation
      → IsCounted q₁ b
      → Held w p q
      → Held (with_ros (with_brain w b) r) p q₁
  told-Held w p q q₁ b r a fl g m n v = moved-Held w p p q q₁ b r refl a fl g m n v
