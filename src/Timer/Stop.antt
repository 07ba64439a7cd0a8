-- ===== src/Timer/Stop.antt =====
-- The end of the real-time thread: what `~RosNode` waits for.
use robot_brain.Base.{ℕ, ◌+◌, ◌-◌, ◌≤◌, ◌≡◌, refl, ◌∙◌, true, false, List, [], ◌∷◌, length, arith}
use robot_brain.Float.{Float}
use robot_brain.Jitter.{JitterStats}
use robot_brain.Timer.Thread.{
  Place, absent, starting, at_head, sleeping, awake, returned, RtThread, Reading, joinable,
  register_realtime_tick, unregistered, call_tick, proceed, run, request_stop, joins,
}

-- How many steps a thread that was told to stop still takes.
abbrev pub left : Place → ℕ
left starting = 2
left sleeping = 3
left awake = 2
left at_head = 1
left _ = 0

-- How many ticks it still makes.
abbrev pub owed : Place → ℕ
owed sleeping = 1
owed awake = 1
owed _ = 0

left_le : (p : Place) → left p ≤ 3
left_le absent = omega arith
left_le starting = omega arith
left_le at_head = omega arith
left_le sleeping = omega arith
left_le awake = omega arith
left_le returned = omega arith

ended : (p : Place) → joinable p ≡ true → left p ≡ 0 → p ≡ returned
ended returned h e = refl
ended absent h e = absurd (cc)
ended starting h e = absurd (omega arith)
ended at_head h e = absurd (omega arith)
ended sleeping h e = absurd (omega arith)
ended awake h e = absurd (omega arith)

ended-owed : (p : Place) → p ≡ returned → owed p ≡ 0
ended-owed p e = rw e refl

module _ {D : Type 0} ⦃d : Float D⦄ where
  -- The thread changes neither the flag nor the callback.
  abbrev Registered : RtThread D → RtThread D → Type 0
  Registered t u = (u.rt_running ≡ t.rt_running) × (u.brain_tick_cb ≡ t.brain_tick_cb)

  proceed-Registered : (p : Place) (c : Reading) (t : RtThread D) → Registered t (proceed p c t)
  unfolding proceed call_tick
  proceed-Registered absent c t = (refl, refl)
  proceed-Registered starting c t = (refl, refl)
  proceed-Registered at_head c t = (refl, refl)
  proceed-Registered sleeping c t = (refl, refl)
  proceed-Registered awake c t = (ground arith, ground arith)
  proceed-Registered returned c t = (refl, refl)

  run-Registered : (cs : List Reading) (t : RtThread D) → Registered t (run cs t)
  unfolding run
  run-Registered [] t = (refl, refl)
  run-Registered (c ∷ earlier) t =
      let (r, b) = run-Registered earlier t in
      let (r₁, b₁) = proceed-Registered (run earlier t).place c (run earlier t) in (r₁ ∙ r, b₁ ∙ b)

  proceed-joinable :
      (p : Place) (c : Reading) (t : RtThread D)
      → t.place ≡ p
      → joinable p ≡ true
      → joinable (proceed p c t).place ≡ true
  unfolding proceed
  proceed-joinable absent c t e h = absurd (cc)
  proceed-joinable starting c t e h = refl
  proceed-joinable at_head c t e h = ground arith
  proceed-joinable sleeping c t e h = refl
  proceed-joinable awake c t e h = refl
  proceed-joinable returned c t e h = rw e refl

  run-joinable :
      (cs : List Reading) (t : RtThread D)
      → joinable t.place ≡ true
      → joinable (run cs t).place ≡ true
  unfolding run
  run-joinable [] t h = h
  run-joinable (c ∷ earlier) t h =
      proceed-joinable (run earlier t).place c (run earlier t) refl (run-joinable earlier t h)

  proceed-stopping :
      (p : Place) (c : Reading) (t : RtThread D)
      → t.place ≡ p
      → t.rt_running ≡ false
      → t.brain_tick_cb ≡ true
      → let u = proceed p c t in
        (left u.place ≡ left p - 1) × (u.ticks + owed u.place ≡ t.ticks + owed p)
  unfolding proceed call_tick
  proceed-stopping absent c t e h k = rw e (refl, refl)
  proceed-stopping starting c t e h k = (refl, refl)
  proceed-stopping at_head c t e h k = rw h (refl, refl)
  proceed-stopping sleeping c t e h k = (refl, refl)
  proceed-stopping awake c t e h k = rw k (refl, omega arith)
  proceed-stopping returned c t e h k = rw e (refl, refl)

  run-stopping :
      (cs : List Reading) (t : RtThread D)
      → t.rt_running ≡ false
      → t.brain_tick_cb ≡ true
      → let u = run cs t in
        (left u.place ≡ left t.place - length cs)
        × (u.ticks + owed u.place ≡ t.ticks + owed t.place)
  unfolding run
  run-stopping [] t h k = (omega arith, refl)
  run-stopping (c ∷ earlier) t h k =
      let (l, o) = run-stopping earlier t h k in
      let (r, b) = run-Registered earlier t in
      let now = run earlier t in
      let (m, q) = proceed-stopping now.place c now refl (r ∙ h) (b ∙ k) in
      (omega (arith, l, m), omega (arith, o, q))

  -- Wherever the thread is when the node is destroyed, the destructor joins it; three more steps of
  -- the thread are enough for it to return, and it calls the tick once more just if it was asleep or
  -- had woken for that tick.
  pub run-request_stop :
      (rate_ms : ℕ) (s : JitterStats D) (before after : List Reading)
      → 3 ≤ length after
      → let t = run before (register_realtime_tick rate_ms (unregistered s)) in
        let u = run after (request_stop t) in
        (joins t ≡ true) × (u.place ≡ returned) × (u.ticks ≡ t.ticks + owed t.place)
  unfolding register_realtime_tick request_stop
  run-request_stop rate_ms s before after enough =
      let first = register_realtime_tick rate_ms (unregistered s) in
      let t = run before first in
      let (running, called) = run-Registered before first in
      let here : joinable t.place ≡ true = run-joinable before first refl in
      let stopping : RtThread D = record t { rt_running = false } in
      let (l, o) = run-stopping after stopping refl called in
      let there =
        ended (run after stopping).place (run-joinable after stopping here)
          (omega (arith, l, left_le t.place)) in
      rw running (here, there, omega (arith, o, ended-owed (run after stopping).place there))
