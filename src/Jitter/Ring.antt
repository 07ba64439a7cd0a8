-- ===== src/Jitter/Ring.antt =====
-- The ring of `UpdateJitter` holds the latest `WINDOW` samples.
use robot_brain.Base.{
  ℕ, zero, suc, ◌+◌, ◌-◌, ◌%◌, ◌<◌, min, ◌≡◌, refl, List, [], ◌∷◌, arith, length, get_or, set,
  length-set, length-replicate, get_or-set_self, get_or-set_ne, ltb, if◌then◌else◌,
}
use robot_brain.Float.{Float}
use robot_brain.Jitter.{JitterStats, window, init, update_jitter, nought}

module _ {D : Type 0} ⦃d : Float D⦄ where
  -- The samples of a run, the latest first.
  unfoldable pub update_all : List D → JitterStats D
  unfolding init
  update_all [] = init
  update_all (x ∷ older) = update_jitter x (update_all older)

  pub record IsRecent (samples : List D) (s : JitterStats D) : Type 0 where
    pub size : length s.ring_buffer ≡ window
    pub index : s.ring_idx < window
    pub count : s.ring_count ≡ min (length samples) window
    pub start : s.ring_count < window → s.ring_idx ≡ s.ring_count
    pub recent :
        (k : ℕ)
        → k < s.ring_count
        → get_or s.ring_buffer ((s.ring_idx + window - 1 - k) % window) nought
          ≡ get_or samples k nought

  IsRecent-init : IsRecent [] init
  unfolding init
  IsRecent-init = record {
    size = length-replicate {A = D} window nought;
    index = omega arith;
    count = omega arith;
    start = λ h. refl;
    recent = λ k h. absurd (omega arith);
  }

  IsRecent-update :
      (x : D) (samples : List D) (s : JitterStats D)
      → IsRecent samples s
      → IsRecent (x ∷ samples) (update_jitter x s)
  unfolding update_jitter
  IsRecent-update x samples s v = record {
    size = omega (arith, v.size, length-set s.ring_buffer s.ring_idx x);
    index = omega arith;
    count = ground arith;
    start = λ h. ground arith;
    recent = recent;
  }
    where
      recent :
          (k : ℕ)
          → k < (if ltb s.ring_count window then s.ring_count + 1 else s.ring_count)
          → get_or
              (set s.ring_buffer s.ring_idx x)
              (((s.ring_idx + 1) % window + window - 1 - k) % window)
              nought
            ≡ get_or (x ∷ samples) k nought
      recent zero h =
          let e : ((s.ring_idx + 1) % window + window - 1 - 0) % window ≡ s.ring_idx =
            omega arith in
          rw e (get_or-set_self s.ring_buffer s.ring_idx x nought (omega arith))
      recent (suc k) h =
          let small : (k < s.ring_count) × (suc k < window) = ground arith in
          let e : ((s.ring_idx + 1) % window + window - 1 - suc k) % window
              ≡ (s.ring_idx + window - 1 - k) % window =
            omega arith in
          let j = (s.ring_idx + window - 1 - k) % window in
          rw (e, get_or-set_ne s.ring_buffer s.ring_idx j x nought (omega arith))
            (v.recent k small.0)

  -- After any run of samples the ring holds the latest of them, up to `WINDOW`, each at its place
  -- counted back from the write index, and the write index stays inside the ring.
  pub update_all-IsRecent : (samples : List D) → IsRecent samples (update_all samples)
  unfolding update_all
  update_all-IsRecent [] = IsRecent-init
  update_all-IsRecent (x ∷ samples) =
      IsRecent-update x samples (update_all samples) (update_all-IsRecent samples)
