-- ===== src/Logging.antt =====
-- src/RobotBrain/include/engine/infra/logger_setup.hpp: the logger that `InitLogger` makes the default
-- one. What spdlog makes of it, which message a threshold lets through, is a parameter.
use Prim.Native.String.{String}
use robot_brain.Base.{
  ℕ, ◌*◌, ◌≡◌, refl, Bool, true, false, ◌&&◌, List, [], ◌∷◌, Bool-cases, inl, inr,
}

-- `spdlog::level`
pub data Level : Type 0 where
  trace debug info warn error critical : Level

pub data Target : Type 0 where
  console : Target
  -- A file that is turned over when it is full.
  rotating_file : (path : String) (max_size max_files : ℕ) → Target

pub record Sink : Type 0 where
  pub target : Target
  pub level : Level

pub record Logger : Type 0 where
  pub name : String
  pub sinks : List Sink
  pub level : Level
  pub pattern : String

abbrev pub console_sink : Sink
console_sink = record { target = console; level = debug }

abbrev pub file_sink : Sink
file_sink = record {
  target = rotating_file "logs/robot_brain.log" (1024 * 1024 * 10) 3;
  level = trace;
}

unfoldable pub init_logger : Logger
init_logger = record {
  name = "RobotBrain";
  sinks = console_sink ∷ file_sink ∷ [];
  level = debug;
  pattern = "[%Y-%m-%d %H:%M:%S.%e] [%^%l%$] [%t] %v";
}

-- `lets m t`: a threshold `t` lets a message of level `m` through.
module _ (lets : Level → Level → Bool) where
  -- A message reaches a sink through the threshold of the logger and then that of the sink.
  abbrev pub reaches : Logger → Sink → Level → Bool
  reaches l s m = lets m l.level && lets m s.level

  -- Where what passes `debug` passes `trace`, and a trace message does not pass `debug`: the file gets
  -- what the console gets, and no trace message, although its own threshold is `trace`.
  pub init_logger-reaches :
      ((m : Level) → lets m debug ≡ true → lets m trace ≡ true)
      → lets trace debug ≡ false
      → (m : Level)
      → (reaches init_logger file_sink m ≡ reaches init_logger console_sink m)
        × (reaches init_logger file_sink trace ≡ false)
  unfolding init_logger
  init_logger-reaches weaker strict m = elim (Bool-cases (lets m debug)) [
    | inl e ↦ (rw (e, weaker m e) refl, rw strict refl)
    | inr e ↦ (rw e refl, rw strict refl)
  ]
