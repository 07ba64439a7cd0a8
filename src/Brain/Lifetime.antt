-- ===== src/Brain/Lifetime.antt =====
-- The constructor of `AIBrain` hands its tick to the node, and its destructor.
use robot_brain.Base.{
  ℕ, ◌+◌, ◌≤◌, ◌≡◌, refl, Bool, true, false, List, [], ◌∷◌, length, arith, if◌then◌else◌,
}
use robot_brain.Base.Int.{pos_part}
use robot_brain.Float.{Float}
use robot_brain.Jitter.{JitterStats}
use robot_brain.Timer.Thread.{
  absent, returned, RtThread, Reading, unregistered, register_realtime_tick, register_brain_tick,
  proceed, run, request_stop, joins,
}
use robot_brain.Timer.Stop.{owed, run-request_stop}
use robot_brain.Brain.{AiBrain, BrainConfig, idle, with_state}

module _ {F D : Type 0} ⦃d : Float D⦄ where
  -- The end of the constructor, for a period that is not negative.
  unfoldable pub register_tick : BrainConfig F → RtThread D → RtThread D
  register_tick config t =
      if config.rt_enabled
      then register_realtime_tick (pos_part config.control_rate_ms) t
      else register_brain_tick (pos_part config.control_rate_ms) t

module _ {F D H : Type 0} where
  -- `~AIBrain`: the tick stays registered.
  unfoldable pub destroy : AiBrain F D H → AiBrain F D H
  destroy b = with_state idle b

module _ {D : Type 0} ⦃d : Float D⦄ where
  -- A thread that was never started does nothing.
  run-absent : (cs : List Reading) (t : RtThread D) → t.place ≡ absent → run cs t ≡ t
  unfolding run proceed
  run-absent [] t e = refl
  run-absent (c ∷ earlier) t e = rw (run-absent earlier t e, e) refl

  -- What the destructor of the node finds and leaves, for either way of ticking.
  pub record IsStopped (rt_enabled : Bool) (t u : RtThread D) : Type 0 where
    pub joined : joins t ≡ rt_enabled
    pub place : u.place ≡ (if rt_enabled then returned else absent)
    pub ticks : u.ticks ≡ t.ticks + owed t.place

  stopped :
      (rt_enabled : Bool) (rate_ms : ℕ) (s : JitterStats D) (before after : List Reading)
      → 3 ≤ length after
      → let first =
          (if rt_enabled
            then register_realtime_tick rate_ms (unregistered s)
            else register_brain_tick rate_ms (unregistered s)) in
        let t = run before first in IsStopped rt_enabled t (run after (request_stop t))
  stopped true rate_ms s before after enough =
      let (j, p, k) = run-request_stop rate_ms s before after enough in
      record { joined = j; place = p; ticks = k }
  stopped false rate_ms s before after enough =
      let first = register_brain_tick rate_ms (unregistered s) in
      let here : first.place ≡ absent = unfold register_brain_tick in refl in
      let still = run-absent before first here in
      unfold register_brain_tick in
      unfold request_stop in
      rw (still, run-absent after first here)
        (record { joined = refl; place = refl; ticks = omega arith })

module _ {F D : Type 0} ⦃d : Float D⦄ where
  -- Whichever way the brain has registered its tick, and wherever the thread is when the node is
  -- destroyed: the destructor joins a thread exactly if one was started; three more steps of it are
  -- enough for it to return, and it calls the tick once more just if it was asleep or had woken for that
  -- tick.
  pub register_tick-IsStopped :
      (config : BrainConfig F) (s : JitterStats D) (before after : List Reading)
      → 3 ≤ length after
      → let t = run before (register_tick config (unregistered s)) in
        IsStopped config.rt_enabled t (run after (request_stop t))
  unfolding register_tick
  register_tick-IsStopped config s before after enough =
      stopped config.rt_enabled (pos_part config.control_rate_ms) s before after enough
