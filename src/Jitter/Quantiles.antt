-- ===== src/Jitter/Quantiles.antt =====
-- What `GetJitterPercentiles` reports.
use robot_brain.Base.{
  ◌∙◌, length-replicate, length-set, ℕ, zero, suc, ◌*◌, ◌/◌, ◌≤◌, ◌<◌, ◌≡◌, refl, List, [], ◌∷◌,
  arith, length, take, false, inl, inr, Bool-cases, if◌then◌else◌, ◌==◌, set, replicate, All,
}
use robot_brain.Float.{Float, IsIeee, ◌≼◌, Num}
use robot_brain.Jitter.{
  JitterStats, Percentiles, window, nought, init, update_jitter, sort, percentiles_of,
  get_jitter_percentiles,
}
use robot_brain.Jitter.Ring.{update_all}
use robot_brain.Jitter.Sorting.{All-sort, length-sort, get_or-All, sort-IsSorted, get_or-IsSorted}

module _ {D : Type 0} ⦃d : Float D⦄ where
  abbrev Bounded : D → D → Type 0
  Bounded top x = Num x × (x ≼ top)

  All-set : (P : D → Type 0) (xs : List D) (i : ℕ) (x : D) → P x → All P xs → All P (set xs i x)
  All-set P [] i x p ps = tt
  All-set P (y ∷ xs) zero x p ps = (p, ps.1)
  All-set P (y ∷ xs) (suc i) x p ps = (ps.0, All-set P xs i x p ps.1)

  All-replicate : (P : D → Type 0) (n : ℕ) (x : D) → P x → All P (replicate n x)
  All-replicate P zero x p = tt
  All-replicate P (suc n) x p = (p, All-replicate P n x p)

  All-take : (P : D → Type 0) (n : ℕ) (xs : List D) → All P xs → All P (take n xs)
  All-take P zero xs ps = tt
  All-take P (suc n) [] ps = tt
  All-take P (suc n) (x ∷ xs) ps = (ps.0, All-take P n xs ps.1)

  All-map : (P Q : D → Type 0) → ((x : D) → P x → Q x) → (xs : List D) → All P xs → All Q xs
  All-map P Q f [] ps = tt
  All-map P Q f (x ∷ xs) ps = (f x ps.0, All-map P Q f xs ps.1)

  length-take_le : (n : ℕ) (xs : List D) → n ≤ length xs → length (take n xs) ≡ n
  length-take_le zero xs h = refl
  length-take_le (suc n) [] h = absurd (omega arith)
  length-take_le (suc n) (x ∷ xs) h = omega (arith, length-take_le n xs)

  abbrev pub InOrder : Percentiles D → Type 0
  InOrder p = (nought ≼ p.p50) × (p.p50 ≼ p.p95) × (p.p95 ≼ p.p99) × (p.p99 ≼ p.top)

  -- The ring has its size, and holds numbers from 0 up to the recorded maximum.
  pub record IsBounded (s : JitterStats D) : Type 0 where
    pub size : length s.ring_buffer ≡ window
    pub count : s.ring_count ≤ window
    pub samples : All (λ x. (nought ≼ x) × (x ≼ s.max_ms)) s.ring_buffer
    pub top : nought ≼ s.max_ms

  module _ (laws : IsIeee D) where
    zero_le : ◌≼◌ {F = D} nought nought
    zero_le = laws.le_refl nought laws.zero_finite.0

    pub init-IsBounded : IsBounded init
    unfolding init
    init-IsBounded = record {
      size = length-replicate {A = D} window nought;
      count = omega arith;
      samples =
          All-replicate (λ x. (nought ≼ x) × (◌≼◌ {F = D} x nought)) window nought
            (zero_le, zero_le);
      top = zero_le;
    }

    pub update_jitter-IsBounded :
        (x : D) (s : JitterStats D) → nought ≼ x → IsBounded s → IsBounded (update_jitter x s)
    unfolding update_jitter
    update_jitter-IsBounded x s nx v =
        let num = (laws.le_num nought x nx).1 in
        let cap = (laws.le_num nought s.max_ms v.top).1 in
        let top = if d.lt s.max_ms x then x else s.max_ms in
        let old : s.max_ms ≼ top = ground (
          arith,
          laws.lt-eq-not-le s.max_ms x cap num,
          laws.le_total s.max_ms x cap num,
          laws.le_refl s.max_ms cap,
        ) in
        let new : x ≼ top = ground (
          arith,
          laws.lt-eq-not-le s.max_ms x cap num,
          laws.le_total s.max_ms x cap num,
          laws.le_refl x num,
        ) in
        record {
          size = length-set s.ring_buffer s.ring_idx x ∙ v.size;
          count = ground (arith, v.count);
          samples =
              All-set _ s.ring_buffer s.ring_idx x (nx, new)
                (All-map _ _ (λ y h. (h.0, laws.le_trans y s.max_ms top h.1 old)) s.ring_buffer
                  v.samples);
          top = laws.le_trans nought s.max_ms top v.top old;
        }

    update_all-IsBounded :
        (samples : List D) → All (λ x. nought ≼ x) samples → IsBounded (update_all samples)
    unfolding update_all
    update_all-IsBounded [] ns = init-IsBounded
    update_all-IsBounded (x ∷ samples) ns =
        update_jitter-IsBounded x (update_all samples) ns.0 (update_all-IsBounded samples ns.1)

    percentiles_of-InOrder :
        (xs : List D) (top : D)
        → 0 < length xs
        → All (λ x. (nought ≼ x) × (x ≼ top)) xs
        → InOrder (percentiles_of (sort xs) top)
    unfolding percentiles_of
    percentiles_of-InOrder xs top h b =
        let n = length-sort xs in
        let nums = All-sort Num xs (All-map _ Num (λ x p. (laws.le_num x top p.1).0) xs b) in
        let sorted =
          sort-IsSorted laws xs (All-map _ Num (λ x p. (laws.le_num x top p.1).0) xs b) in
        let bs = All-sort (λ x. (nought ≼ x) × (x ≼ top)) xs b in
        let m = length (sort xs) in
        (
          (get_or-All _ (sort xs) (m * 50 / 100) nought bs (omega arith)).0,
          get_or-IsSorted laws (sort xs) (m * 50 / 100) (m * 95 / 100) nought nums sorted
              (omega arith) (omega arith),
          get_or-IsSorted laws (sort xs) (m * 95 / 100) (m * 99 / 100) nought nums sorted
              (omega arith) (omega arith),
          (get_or-All _ (sort xs) (m * 99 / 100) nought bs (omega arith)).1,
        )

    pub IsBounded-InOrder : (s : JitterStats D) → IsBounded s → InOrder (get_jitter_percentiles s)
    unfolding get_jitter_percentiles
    IsBounded-InOrder s v = elim (Bool-cases (s.ring_count == 0)) [
      | inl e ↦ rw e (zero_le, zero_le, zero_le, zero_le)
      | inr e ↦ rw e (
          percentiles_of-InOrder (take s.ring_count s.ring_buffer) s.max_ms
            (omega (
              arith,
              ne e,
              length-take_le s.ring_count s.ring_buffer (omega (arith, v.count, v.size)),
            ))
            (All-take _ s.ring_count s.ring_buffer v.samples))
    ]
      where
        ne : (s.ring_count == 0) ≡ false → 0 < s.ring_count
        ne e = ground arith

    -- In IEEE 754 arithmetic, after any run of samples that are at least 0, the reported P50, P95, P99
    -- and maximum are in order, from 0 up.
    pub percentiles-InOrder :
        (samples : List D)
        → All (λ x. nought ≼ x) samples
        → InOrder (get_jitter_percentiles (update_all samples))
    percentiles-InOrder samples ns =
        IsBounded-InOrder (update_all samples) (update_all-IsBounded samples ns)
