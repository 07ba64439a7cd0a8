-- ===== src/Config/Sections.antt =====
-- What each section of a file does to the configuration: it throws, or it leaves the number of joints
-- and their positions as they are, `ai_brain` apart.
use Prim.Native.String.{String}
use robot_brain.Base.{
  ◌≡◌, refl, ◌∙◌, ◌&&◌, ◌||◌, Bool, true, false, Option, none, some, if◌then◌else◌,
}
use robot_brain.Float.{Float}
use robot_brain.Config.{Node, AppConfig}
use robot_brain.Config.Load.{
  ◌>>=◌, load_server, load_robot, load_safety, load_realtime, load_rest, subscripted,
}

module _ {F : Type 0} where
  -- A section that is there is a scalar.
  abbrev pub is_bad : Node F → String → Bool
  is_bad n section = n.has section && n.is_scalar section

  abbrev pub is_bad_rest : Node F → Bool
  is_bad_rest n = (is_bad n "robot" || is_bad n "safety") || is_bad n "realtime"

module _ {F : Type 0} ⦃f : Float F⦄ where
  -- A section throws, or keeps the joints and their positions.
  pub data Loads (c : AppConfig F) : Bool → Option (AppConfig F) → Type 0 where
    throws : Loads c true none
    keeps :
        {k : AppConfig F}
        → k.num_joints ≡ c.num_joints
        → k.default_joint_positions ≡ c.default_joint_positions
        → Loads c false (some k)

  section-Loads :
      (c k : AppConfig F) (there bad : Bool)
      → k.num_joints ≡ c.num_joints
      → k.default_joint_positions ≡ c.default_joint_positions
      → Loads c (there && bad) (if there then (if bad then none else some k) else some c)
  section-Loads c k true true p q = throws
  section-Loads c k true false p q = keeps p q
  section-Loads c k false bad p q = keeps refl refl

  pub load_server-Loads :
      (n : Node F) (c : AppConfig F) → Loads c (is_bad n "server") (load_server n c)
  unfolding load_server subscripted
  load_server-Loads n c = section-Loads c _ (n.has "server") (n.is_scalar "server") refl refl

  load_robot-Loads : (n : Node F) (c : AppConfig F) → Loads c (is_bad n "robot") (load_robot n c)
  unfolding load_robot subscripted
  load_robot-Loads n c = section-Loads c _ (n.has "robot") (n.is_scalar "robot") refl refl

  load_safety-Loads : (n : Node F) (c : AppConfig F) → Loads c (is_bad n "safety") (load_safety n c)
  unfolding load_safety subscripted
  load_safety-Loads n c = section-Loads c _ (n.has "safety") (n.is_scalar "safety") refl refl

  load_realtime-Loads :
      (n : Node F) (c : AppConfig F) → Loads c (is_bad n "realtime") (load_realtime n c)
  unfolding load_realtime subscripted
  load_realtime-Loads n c = section-Loads c _ (n.has "realtime") (n.is_scalar "realtime") refl refl

  then-Loads :
      {c : AppConfig F} {a b : Bool} {o : Option (AppConfig F)}
      (g : AppConfig F → Option (AppConfig F))
      → Loads c a o
      → ((k : AppConfig F) → Loads k b (g k))
      → Loads c (a || b) (o >>= g)
  then-Loads g throws h = throws
  then-Loads {c} {b = b} g (keeps {k} p q) h = again (h k)
    where
      again : {o : Option (AppConfig F)} {e : Bool} → Loads k e o → Loads c e o
      again throws = throws
      again (keeps u v) = keeps (u ∙ p) (v ∙ q)

  pub load_rest-Loads :
      (n : Node F) (c : AppConfig F)
      → Loads c ((is_bad n "robot" || is_bad n "safety") || is_bad n "realtime") (load_rest n c)
  unfolding load_rest
  load_rest-Loads n c =
      then-Loads (load_realtime n)
        (then-Loads (load_safety n) (load_robot-Loads n c) (load_safety-Loads n))
        (load_realtime-Loads n)
