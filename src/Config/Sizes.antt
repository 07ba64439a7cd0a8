-- ===== src/Config/Sizes.antt =====
-- What the rest of the program relies on: one default position for each joint.
use Prim.Native.String.{String}
use robot_brain.Base.{
  ◌^◌, ◌≤◌, ◌<◌, ◌≡◌, Option, none, some, length, arith, length-replicate, Bool-cases, inl, inr,
  ltb, ◌==◌, if_cases,
}
use robot_brain.Base.Int.{neg_part}
use robot_brain.Float.{Float}
use robot_brain.Config.{
  Node, AppConfig, Loaded, loaded, size_of_int, default_config, brain_config_of,
}
use robot_brain.Config.Load.{load_config, checked, check_positions, load_sections}

module _ {F : Type 0} where
  -- The configuration of a good end has a position for each joint.
  abbrev pub GoodEnd : Loaded F → Type 0
  GoodEnd (loaded c) = length c.default_joint_positions ≡ size_of_int c.num_joints
  GoodEnd l = Unit

module _ {F : Type 0} ⦃f : Float F⦄ where
  check_positions-GoodEnd : (c : AppConfig F) → GoodEnd (check_positions c)
  unfolding check_positions
  check_positions-GoodEnd c =
      elim (Bool-cases (length c.default_joint_positions == size_of_int c.num_joints)) [
        | inl e ↦ rw e (ground arith)
        | inr e ↦ elim (Bool-cases (ltb (size_of_int c.num_joints) (2 ^ 61))) [
          | inl l ↦ rw (e, l) (length-replicate (size_of_int c.num_joints) (f.lit 0 0))
          | inr l ↦ rw (e, l) tt
        ]
      ]

  checked-GoodEnd : (o : Option (AppConfig F)) → GoodEnd (checked o)
  unfolding checked
  checked-GoodEnd none = tt
  checked-GoodEnd (some c) = check_positions-GoodEnd c

  load_config-GoodEnd : (file : Option (Node F)) → GoodEnd (load_config file)
  unfolding load_config
  load_config-GoodEnd none = tt
  load_config-GoodEnd (some n) =
      if_cases GoodEnd n.is_scalar_root _ _ (λ _. tt)
        (λ _. checked-GoodEnd (load_sections n default_config))

  -- If the file loads, the number of joints is an `int` and the list is no longer than a vector can be,
  -- then the number of joints is not negative and the configuration of the brain has exactly one
  -- default position for each joint.
  pub load_config_sized :
      (file : Option (Node F)) (c : AppConfig F) (path : String)
      → load_config file ≡ loaded c
      → neg_part c.num_joints ≤ 2 ^ 31
      → length c.default_joint_positions < 2 ^ 61
      → (neg_part c.num_joints ≡ 0)
        × (length (brain_config_of path c).default_joint_positions
            ≡ (brain_config_of path c).num_joints)
  unfolding brain_config_of
  load_config_sized file c path e small fits =
      let good : length c.default_joint_positions ≡ size_of_int c.num_joints =
        rw e at (load_config-GoodEnd file) in
      ground arith
