-- ===== src/Server/Shutdown.antt =====
-- `~GrpcServer` of src/RobotBrain/src/core/grpc_server.cpp: the server and its queue are shut down, and
-- the queue is drained. This happens only when an exception has left `HandleRpcs`.
use robot_brain.Base.{ℕ, zero, suc, ◌≡◌, refl, List, [], ◌∷◌, length}
use robot_brain.Server.{Tag, Server}

module _ {F : Type 0} where
  -- `while (cq_->Next(&ignored_tag, &ignored_ok)) {}`: after the shutdown each outstanding tag completes
  -- once, and its callback is not called.
  unfoldable pub drain : ℕ → Server F → Server F
  drain zero s = s
  drain (suc n) s = elim s.tags [ [] ↦ s | t ∷ ts ↦ drain n (record s { tags = ts }) ]

  -- There is a round for each tag.
  unfoldable pub destroy_server : Server F → Server F
  unfolding drain
  destroy_server s = drain (length s.tags) s

  drain_lem :
      (ts : List Tag) (s : Server F)
      → s.tags ≡ ts
      → let d = drain (length ts) s in (d.tags ≡ []) × (d.sessions ≡ s.sessions)
  unfolding drain
  drain_lem [] s e = (e, refl)
  drain_lem (t ∷ ts) s e = rw e (drain_lem ts (record s { tags = ts }) refl)

  -- The drain leaves no tag, and every session where it was.
  destroy_server_lem :
      (s : Server F) → let d = destroy_server s in (d.tags ≡ []) × (d.sessions ≡ s.sessions)
  unfolding destroy_server
  destroy_server_lem s = drain_lem s.tags s refl
