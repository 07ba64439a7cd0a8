-- ===== src/Server/Rounds.antt =====
-- `HandleRpcs` of src/RobotBrain/src/core/grpc_server.cpp as a loop that runs.
use mathlib.Core.Path.{subst}
use robot_brain.Base.{
  ℕ, zero, suc, ◌≡◌, refl, ap, ◌↔◌, Bool, Option, none, some, List, [], ◌∷◌, ◌++◌, length,
}
use robot_brain.Server.{
  Tag, Server, Request, handle_event, start_server, complete, Reach, start, next,
}

-- Which tag `Next` gives, counted from the one that was hung up last, with its `ok` and what the
-- client's request then holds.
pub record Completion (F : Type 0) : Type 0 where
  pub place : ℕ
  pub ok : Bool
  pub request : Request F

-- The tags before a place, the tag there, and those after it.
abbrev pub Place : Type 0
Place = List Tag × Tag × List Tag

unfoldable pub past : Tag → Option Place → Option Place
past u none = none
past u (some (before, t, after)) = some (u ∷ before, t, after)

unfoldable pub take_tag : ℕ → List Tag → Option Place
unfolding past
take_tag i [] = none
take_tag zero (t ∷ ts) = some ([], t, ts)
take_tag (suc i) (t ∷ ts) = past t (take_tag i ts)

past-some :
    (u : Tag) (o : Option Place) (us : List Tag) (before : List Tag) (t : Tag) (after : List Tag)
    → ((b : List Tag) (v : Tag) (a : List Tag) → o ≡ some (b, v, a) → us ≡ b ++ v ∷ a)
    → past u o ≡ some (before, t, after)
    → u ∷ us ≡ before ++ t ∷ after
unfolding past
past-some u none us before t after h e = absurd (cc)
past-some u (some (b, v, a)) us before t after h e = cc (h b v a refl)

take_tag-some :
    (i : ℕ) (ts before : List Tag) (t : Tag) (after : List Tag)
    → take_tag i ts ≡ some (before, t, after)
    → ts ≡ before ++ t ∷ after
unfolding take_tag
take_tag-some i [] before t after e = absurd (cc)
take_tag-some zero (u ∷ us) before t after e = cc
take_tag-some (suc i) (u ∷ us) before t after e =
    past-some u (take_tag i us) us before t after (take_tag-some i us) e

take_tag-append :
    (before : List Tag) (t : Tag) (after : List Tag)
    → take_tag (length before) (before ++ t ∷ after) ≡ some (before, t, after)
unfolding take_tag
take_tag-append [] t after = refl
take_tag-append (u ∷ before) t after = ap (past u) (take_tag-append before t after)

module _ {F : Type 0} where
  -- The loop body: the tag is called, then deleted.
  unfoldable pub answer : Completion F → Option Place → Server F → Server F
  answer c none s = s
  answer c (some (before, t, after)) s =
      handle_event t c.ok c.request (record s { tags = before ++ after })

  -- The completions of a run, the latest first. One that is not in the queue changes nothing.
  unfoldable pub handle_rpcs : List (Completion F) → Server F
  unfolding answer
  handle_rpcs [] = start_server
  handle_rpcs (c ∷ earlier) = let s = handle_rpcs earlier in answer c (take_tag c.place s.tags) s

  answer-Reach :
      (c : Completion F) (o : Option Place) (s : Server F)
      → take_tag c.place s.tags ≡ o
      → Reach s
      → Reach (answer c o s)
  unfolding answer
  answer-Reach c none s e r = r
  answer-Reach c (some (before, t, after)) s e r =
      next r
        (complete before t after c.ok c.request (take_tag-some c.place s.tags before t after e))

  handle_rpcs-Reach : (cs : List (Completion F)) → Reach (handle_rpcs cs)
  unfolding handle_rpcs
  handle_rpcs-Reach [] = start
  handle_rpcs-Reach (c ∷ earlier) =
      answer-Reach c _ (handle_rpcs earlier) refl (handle_rpcs-Reach earlier)

  Reach-handle_rpcs : {s : Server F} → Reach s → (cs : List (Completion F)) × (handle_rpcs cs ≡ s)
  unfolding handle_rpcs
  Reach-handle_rpcs start = ([], refl)
  Reach-handle_rpcs (next {s = s} r (complete before t after ok req e)) =
      let (cs, h) = Reach-handle_rpcs r in
      let c : Completion F = record { place = length before; ok = ok; request = req } in
      (c ∷ cs, rw (h, e, take_tag-append before t after) refl)

  -- The states that the step relation of the server reaches are just those in which the loop can stand
  -- after some completions.
  pub handle_rpcs_iff :
      (s : Server F) → Reach s ↔ ((cs : List (Completion F)) × (handle_rpcs cs ≡ s))
  handle_rpcs_iff s = (Reach-handle_rpcs, λ p. subst Reach p.1 (handle_rpcs-Reach p.0))
