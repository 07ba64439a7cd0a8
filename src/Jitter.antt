-- ===== src/Jitter.antt =====
-- src/RobotBrain/src/core/ros_node.cpp, `UpdateJitter` and `GetJitterPercentiles`, over the
-- `JitterStats` of ros_node.h: a ring of the latest wake-up delays and their percentiles.
pub mod Ring
pub mod Sorting
pub mod Quantiles
use robot_brain.Base.{
  ℕ, ◌+◌, ◌*◌, ◌/◌, ◌%◌, Bool, true, false, List, [], ◌∷◌, ltb, ◌==◌, if◌then◌else◌, length, get_or,
  set, take, replicate,
}
use robot_brain.Float.{Float}

-- `JitterStats::WINDOW`
abbrev pub window : ℕ
window = 1000

pub record JitterStats (D : Type 0) : Type 0 where
  pub ring_buffer : List D
  pub ring_idx : ℕ
  pub ring_count : ℕ
  pub max_ms : D
  pub sched_fifo_ok : Bool

-- The four numbers that `GetJitterPercentiles` returns.
pub record Percentiles (D : Type 0) : Type 0 where
  pub p50 : D
  pub p95 : D
  pub p99 : D
  pub top : D

module _ {D : Type 0} ⦃d : Float D⦄ where
  abbrev pub nought : D
  nought = d.lit 0 0

  unfoldable pub init : JitterStats D
  init = record {
    ring_buffer = replicate window nought;
    ring_idx = 0;
    ring_count = 0;
    max_ms = nought;
    sched_fifo_ok = false;
  }

  unfoldable pub update_jitter : D → JitterStats D → JitterStats D
  update_jitter jitter s = record s {
    ring_buffer = set s.ring_buffer s.ring_idx jitter;
    ring_idx = (s.ring_idx + 1) % window;
    ring_count = if ltb s.ring_count window then s.ring_count + 1 else s.ring_count;
    max_ms = if d.lt s.max_ms jitter then jitter else s.max_ms;
  }

  -- `std::sort`, by insertion.
  unfoldable pub insert : D → List D → List D
  insert x [] = x ∷ []
  insert x (y ∷ ys) = if d.lt y x then y ∷ insert x ys else x ∷ y ∷ ys

  unfoldable pub sort : List D → List D
  unfolding insert
  sort [] = []
  sort (x ∷ xs) = insert x (sort xs)

  unfoldable pub percentiles_of : List D → D → Percentiles D
  percentiles_of sorted top =
      let n = length sorted in
      record {
        p50 = get_or sorted (n * 50 / 100) nought;
        p95 = get_or sorted (n * 95 / 100) nought;
        p99 = get_or sorted (n * 99 / 100) nought;
        top = top;
      }

  unfoldable pub get_jitter_percentiles : JitterStats D → Percentiles D
  unfolding percentiles_of
  get_jitter_percentiles s =
      if s.ring_count == 0
      then record { p50 = nought; p95 = nought; p99 = nought; top = nought }
      else percentiles_of (sort (take s.ring_count s.ring_buffer)) s.max_ms
