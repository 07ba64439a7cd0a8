-- ===== src/Brain/Falls.antt =====
-- The debounce of `DetectFall` of src/RobotBrain/src/business/ai_brain.cpp, which no other function calls.
-- A frame counts where its gravity is above the threshold, as in the code; the comment at the declaration
-- in src/RobotBrain/include/engine/business/ai_brain.h says below.
use robot_brain.Base.{
  ℕ, suc, ◌≤◌, ◌<◌, ◌==◌, ◌≡◌, refl, ap, ◌∙◌, Bool, true, false, sym, ◌++◌, List, [], ◌∷◌, All,
  length, arith, if◌then◌else◌,
}
use mathlib.Core.Path.{subst}
use robot_brain.Base.Int.{pos}
use robot_brain.Float.{Float}
use robot_brain.Ros.{Proprioception}
use robot_brain.Brain.{AiBrain}
use robot_brain.Brain.Motion.{detect_fall}

module _ {F D H : Type 0} ⦃f : Float F⦄ where
  -- The calls of a run of frames, the latest first; at the start nothing is reported.
  unfoldable pub detect_all : List (Proprioception F) → AiBrain F D H → Bool × AiBrain F D H
  unfolding detect_fall
  detect_all [] b = (false, b)
  detect_all (p ∷ older) b = detect_fall p (detect_all older b).1

  -- A frame beyond the threshold.
  abbrev pub IsBeyond : AiBrain F D H → Proprioception F → Type 0
  IsBeyond b p = f.lt b.fall_gravity_threshold p.projected_gravity.v2 ≡ true

  detect_all-config :
      (ps : List (Proprioception F)) (b : AiBrain F D H) → (detect_all ps b).1.config ≡ b.config
  unfolding detect_all
  detect_all-config [] b = refl
  detect_all-config (p ∷ ps) b = ground (arith, detect_all-config ps b)

  -- One more frame beyond the threshold, after `m` of them.
  detect_fall_lem :
      (n m : ℕ) (p : Proprioception F) (b : AiBrain F D H)
      → b.fall_debounce_count ≡ m
      → b.fall_debounce_frames ≡ pos n
      → IsBeyond b p
      → m < n
      → let (report, after) = detect_fall p b in
        (report ≡ (suc m == n)) × (after.fall_debounce_count ≡ (if suc m == n then 0 else suc m))
  unfolding detect_fall
  detect_fall_lem n m p b c e h k = rw (h, e, c) (ground arith)

  -- From a count of 0.
  streak_lem :
      (n : ℕ) (p : Proprioception F) (ps : List (Proprioception F)) (b : AiBrain F D H)
      → b.fall_debounce_count ≡ 0
      → b.fall_debounce_frames ≡ pos n
      → All (IsBeyond b) (p ∷ ps)
      → length (p ∷ ps) ≤ n
      → let (report, after) = detect_all (p ∷ ps) b in
        (report ≡ (length (p ∷ ps) == n))
        × (after.fall_debounce_count ≡ (if length (p ∷ ps) == n then 0 else length (p ∷ ps)))
  unfolding detect_all
  streak_lem n p [] b z e (h, _) k = detect_fall_lem n 0 p b z e h (omega arith)
  streak_lem n p (q ∷ ps) b z e (h, hs) k =
      let c = (streak_lem n q ps b z e hs (omega arith)).1 in
      let same = detect_all-config (q ∷ ps) b in
      detect_fall_lem n (suc (length ps)) p (detect_all (q ∷ ps) b).1 (ground (arith, c))
        (ap (λ g. g.fall_debounce_frames) same ∙ e)
        (ap (λ g. f.lt g.fall_gravity_threshold p.projected_gravity.v2) same ∙ h) (omega arith)

  -- A frame that is not beyond the threshold reports nothing and sets the count back.
  upright_lem :
      (q : Proprioception F) (b : AiBrain F D H)
      → f.lt b.fall_gravity_threshold q.projected_gravity.v2 ≡ false
      → ((detect_fall q b).0 ≡ false) × ((detect_fall q b).1.fall_debounce_count ≡ 0)
  unfolding detect_fall
  upright_lem q b h = rw h (refl, refl)

  detect_all-append :
      (ps qs : List (Proprioception F)) (b : AiBrain F D H)
      → (detect_all (ps ++ qs) b).1 ≡ (detect_all ps (detect_all qs b).1).1
  unfolding detect_all
  detect_all-append [] qs b = refl
  detect_all-append (p ∷ ps) qs b = ap (λ g. (detect_fall p g).1) (detect_all-append ps qs b)

  -- With a debounce of `n` frames, whatever came before and whatever the count was: a frame whose
  -- gravity is not above the threshold reports no fall, and of up to `n` frames in a row above it that
  -- follow, the `n`-th reports one and none before it does; the count is the length of that row, and 0
  -- again after the report.
  pub detect_all_lem :
      (n : ℕ) (p : Proprioception F) (ps : List (Proprioception F)) (q : Proprioception F)
      (older : List (Proprioception F)) (b : AiBrain F D H)
      → b.fall_debounce_frames ≡ pos n
      → f.lt b.fall_gravity_threshold q.projected_gravity.v2 ≡ false
      → All (IsBeyond b) (p ∷ ps)
      → length (p ∷ ps) ≤ n
      → let (report, after) = detect_all ((p ∷ ps) ++ q ∷ older) b in
        ((detect_all (q ∷ older) b).0 ≡ false)
        × (report ≡ (length (p ∷ ps) == n))
        × (after.fall_debounce_count ≡ (if length (p ∷ ps) == n then 0 else length (p ∷ ps)))
  detect_all_lem n p ps q older b e h hs k =
      let c = (detect_all (q ∷ older) b).1 in
      let same = detect_all-config (q ∷ older) b in
      let before = detect_all-config older b in
      let level = ap (λ g. f.lt g.fall_gravity_threshold q.projected_gravity.v2) before ∙ h in
      let (quiet, zeroed) = upright_lem q (detect_all older b).1 level in
      let (report, count) =
        streak_lem n p ps c (unfold detect_all in zeroed)
          (ap (λ g. g.fall_debounce_frames) same ∙ e)
          (subst
            (λ g. All (λ r. f.lt g.fall_gravity_threshold r.projected_gravity.v2 ≡ true) (p ∷ ps))
            (sym same) hs)
          k in
      let joined = ap (λ g. detect_fall p g) (detect_all-append ps (q ∷ older) b) in
      (
        unfold detect_all in quiet,
        unfold detect_all in (ap (λ x. x.0) joined ∙ report),
        unfold detect_all in (ap (λ x. x.1.fall_debounce_count) joined ∙ count),
      )
