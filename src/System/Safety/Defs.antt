-- ===== src/System/Safety/Defs.antt =====
-- What it means that no command and no target is outside the limits.
use robot_brain.Base.{◌≡◌, refl, List, map, All}
use robot_brain.Float.{Float, Convert}
use robot_brain.Ros.{RosNode, publish_joint_command}
use robot_brain.Brain.{BrainConfig}
use robot_brain.Brain.Limits.{InLimits}
use robot_brain.Brain.Inference.{Stage, computed, admitted}
use robot_brain.System.{World}

module _ {F : Type 0} ⦃f : Float F⦄ where
  abbrev pub StageInLimits : BrainConfig F → Stage F → Type 0
  StageInLimits cfg (computed targets actions) = InLimits cfg targets
  StageInLimits cfg (admitted targets actions) = InLimits cfg targets
  StageInLimits cfg s = Unit

module _ {F D : Type 0} ⦃f : Float F⦄ ⦃c : Convert F D⦄ where
  -- A message that carries targets within the limits.
  abbrev pub MessageInLimits : BrainConfig F → List D → Type 0
  MessageInLimits cfg msg = (v : List F) × (msg ≡ map c.widen v) × InLimits cfg v

module _ {F D H : Type 0} ⦃f : Float F⦄ ⦃c : Convert F D⦄ where
  pub record IsSafe (cfg : BrainConfig F) (w : World F D H) : Type 0 where
    pub config : w.machine.brain.config ≡ cfg
    pub last : InLimits cfg w.machine.brain.last_joint_targets
    pub stage : StageInLimits cfg w.stage
    pub sent : All (MessageInLimits cfg) w.machine.ros.published

module _ {F D : Type 0} ⦃f : Float F⦄ ⦃d : Float D⦄ ⦃c : Convert F D⦄ where
  pub publish-sent :
      (cfg : BrainConfig F) (v : List F) (r : RosNode F D)
      → InLimits cfg v
      → All (MessageInLimits cfg) r.published
      → All (MessageInLimits cfg) (publish_joint_command v r).published
  unfolding publish_joint_command
  publish-sent cfg v r l s = ((v, refl, l), s)
