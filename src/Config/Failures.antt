-- ===== src/Config/Failures.antt =====
-- Which files do not load, and by which exception.
use Prim.Native.String.{String}
use robot_brain.Base.{
  ◌^◌, ◌≤◌, ◌<◌, ◌≡◌, refl, ap, ◌∙◌, ◌&&◌, ◌||◌, Bool, true, false, Option, none, some, List, [],
  length, arith, if◌then◌else◌,
}
use robot_brain.Base.Int.{ℤ, pos, negsuc, pos_part, neg_part}
use robot_brain.Float.{Float}
use robot_brain.Config.{Node, AppConfig, Loaded, loaded, load_failed, length_error, default_config}
use robot_brain.Config.Sections.{
  is_bad, is_bad_rest, Loads, throws, keeps, load_server-Loads, load_rest-Loads,
}
use robot_brain.Config.Load.{
  ◌>>=◌, load_config, checked, check_positions, load_brain, load_lists, floats_or, read_brain,
  load_rest, load_sections,
}

pub data Outcome : Type 0 where
  loads unreadable too_long : Outcome

abbrev pub outcome_of_joints : ℤ → Outcome
outcome_of_joints (pos k) = loads
outcome_of_joints (negsuc k) = too_long

-- What a section `ai_brain` comes to, by its two lists and its number of joints.
abbrev pub outcome_of_lists : Bool → Bool → ℤ → Outcome
outcome_of_lists true true joints = outcome_of_joints joints
outcome_of_lists a b joints = unreadable

abbrev pub IsInt : ℤ → Type 0
IsInt j = (pos_part j < 2 ^ 31) × (neg_part j ≤ 2 ^ 31)

module _ {F : Type 0} where
  abbrev pub outcome : Loaded F → Outcome
  outcome (loaded c) = loads
  outcome load_failed = unreadable
  outcome length_error = too_long

  abbrev pub converts : Bool → Option (List F) → Bool
  converts false o = true
  converts true none = false
  converts true (some xs) = true

  -- A list of `ai_brain` that is there can be converted.
  abbrev pub is_good : Node F → String → Bool
  is_good n key = converts (n.has_key "ai_brain" key) (n.as_floats "ai_brain" key)

  abbrev pub is_misshapen : Node F → Bool
  is_misshapen n = n.is_scalar_root || (is_bad n "server" || (is_bad n "ai_brain" || is_bad_rest n))

  -- What the section `ai_brain` comes to, if it is there.
  abbrev pub outcome_of_brain : Bool → Node F → Outcome
  outcome_of_brain true n =
      outcome_of_lists (is_good n "default_joint_positions") (is_good n "cmd_scale")
        (n.as_int "ai_brain" "num_joints" (pos 12))
  outcome_of_brain false n = loads

  abbrev pub outcome_of : Option (Node F) → Outcome
  outcome_of none = unreadable
  outcome_of (some n) = if is_misshapen n then unreadable else outcome_of_brain (n.has "ai_brain") n

  -- The number of joints is an `int`, and no list is longer than a vector can be.
  abbrev pub IsInRange : Option (Node F) → Type 0
  IsInRange none = Unit
  IsInRange (some n) =
      IsInt (n.as_int "ai_brain" "num_joints" (pos 12))
      × ((key : String) (xs : List F) → n.as_floats "ai_brain" key ≡ some xs → length xs < 2 ^ 61)

module _ {F : Type 0} ⦃f : Float F⦄ where
  check_positions-outcome :
      (c : AppConfig F) (j : ℤ)
      → c.num_joints ≡ j
      → IsInt j
      → length c.default_joint_positions < 2 ^ 61
      → outcome (check_positions c) ≡ outcome_of_joints j
  unfolding check_positions
  check_positions-outcome c (pos k) e (p, q) short = ground (arith, e)
  check_positions-outcome c (negsuc k) e (p, q) short = ground (arith, e)

  checked-outcome :
      {c : AppConfig F} {b : Bool} {o : Option (AppConfig F)} (j : ℤ)
      → Loads c b o
      → c.num_joints ≡ j
      → IsInt j
      → length c.default_joint_positions < 2 ^ 61
      → outcome (checked o) ≡ (if b then unreadable else outcome_of_joints j)
  unfolding checked
  checked-outcome j throws e int short = refl
  checked-outcome j (keeps {k} p q) e int short =
      check_positions-outcome k j (p ∙ e) int (rw q short)

  rest-outcome :
      (n : Node F) (c : AppConfig F) (j : ℤ)
      → c.num_joints ≡ j
      → IsInt j
      → length c.default_joint_positions < 2 ^ 61
      → outcome (checked (load_rest n c))
        ≡ (if is_bad_rest n then unreadable else outcome_of_joints j)
  rest-outcome n c j = checked-outcome j (load_rest-Loads n c)

  unread :
      (n : Node F) (b : Bool)
      → outcome {F = F} (checked none) ≡ (if b then unreadable else unreadable)
  unfolding checked
  unread n true = refl
  unread n false = refl

  lists-outcome :
      (n : Node F) (c : AppConfig F) (j : ℤ) (a b : Bool) (o p : Option (List F))
      → n.as_int "ai_brain" "num_joints" c.num_joints ≡ j
      → n.has_key "ai_brain" "default_joint_positions" ≡ a
      → n.has_key "ai_brain" "cmd_scale" ≡ b
      → n.as_floats "ai_brain" "default_joint_positions" ≡ o
      → n.as_floats "ai_brain" "cmd_scale" ≡ p
      → IsInt j
      → length c.default_joint_positions < 2 ^ 61
      → ((xs : List F) → o ≡ some xs → length xs < 2 ^ 61)
      → outcome (checked (load_lists n c >>= load_rest n))
        ≡ (if is_bad_rest n then unreadable else outcome_of_lists (converts a o) (converts b p) j)
  unfolding load_lists floats_or read_brain
  lists-outcome n c j true b none p e ha hb ho hp int short all =
      rw (ha, ho) (unread n (is_bad_rest n))
  lists-outcome n c j true true (some xs) none e ha hb ho hp int short all =
      rw (ha, ho, hb, hp) (unread n (is_bad_rest n))
  lists-outcome n c j true true (some xs) (some ys) e ha hb ho hp int short all =
      rw (ha, ho, hb, hp) (rest-outcome n _ j e int (all xs refl))
  lists-outcome n c j true false (some xs) p e ha hb ho hp int short all =
      rw (ha, ho, hb) (rest-outcome n _ j e int (all xs refl))
  lists-outcome n c j false true o none e ha hb ho hp int short all =
      rw (ha, hb, hp) (unread n (is_bad_rest n))
  lists-outcome n c j false true o (some ys) e ha hb ho hp int short all =
      rw (ha, hb, hp) (rest-outcome n _ j e int short)
  lists-outcome n c j false false o p e ha hb ho hp int short all =
      rw (ha, hb) (rest-outcome n _ j e int short)

  -- From `ai_brain` on, with the joints that the configuration starts with.
  brain-outcome :
      (n : Node F) (c : AppConfig F) (a b : Bool)
      → n.has "ai_brain" ≡ a
      → n.is_scalar "ai_brain" ≡ b
      → c.num_joints ≡ pos 12
      → c.default_joint_positions ≡ []
      → IsInRange (some n)
      → outcome (checked (load_brain n c >>= load_rest n))
        ≡ (if (a && b) || is_bad_rest n then unreadable else outcome_of_brain a n)
  unfolding load_brain checked
  brain-outcome n c true true h k e z i = rw (h, k) refl
  brain-outcome n c true false h k e z (int, all) =
      rw (h, k)
        (lists-outcome n c _ _ _ _ _ (ap (n.as_int "ai_brain" "num_joints") e) refl refl refl refl
          int (rw z (omega arith)) (all "default_joint_positions"))
  brain-outcome n c false b h k e z i =
      rw h (rest-outcome n c (pos 12) e (omega arith, omega arith) (rw z (omega arith)))

  sections-outcome :
      (n : Node F) {a : Bool} {o : Option (AppConfig F)}
      → Loads default_config a o
      → IsInRange (some n)
      → outcome (checked (o >>= load_brain n >>= load_rest n)) ≡ (
          if a || (is_bad n "ai_brain" || is_bad_rest n)
          then unreadable
          else outcome_of_brain (n.has "ai_brain") n)
  unfolding checked default_config
  sections-outcome n throws i = refl
  sections-outcome n (keeps {k} p q) i = brain-outcome n k _ _ refl refl p q i

  root-outcome :
      (a b : Bool) (l : Loaded F) (o : Outcome)
      → outcome l ≡ (if b then unreadable else o)
      → outcome (if a then load_failed else l) ≡ (if a || b then unreadable else o)
  root-outcome true b l o e = refl
  root-outcome false b l o e = e

  -- With an `int` for the number of joints and lists that fit a vector, loading ends in one of three
  -- ways. A file that cannot be parsed, that is a scalar, that has one of its five sections there as a
  -- scalar, or that has one of the two lists in a form that cannot be converted, is the
  -- `std::runtime_error`; of the others, a negative number of joints is the `std::length_error` that the
  -- function does not catch; any other file loads.
  pub outcome-load_config :
      (file : Option (Node F)) → IsInRange file → outcome (load_config file) ≡ outcome_of file
  unfolding load_config load_sections
  outcome-load_config none h = refl
  outcome-load_config (some n) h =
      root-outcome n.is_scalar_root _ _ _
        (sections-outcome n (load_server-Loads n default_config) h)
