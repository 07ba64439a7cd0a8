-- ===== src/Server/Listeners.antt =====
-- Who waits for clients, and which events a session can get.
use robot_brain.Base.{
  ℕ, ◌+◌, ◌≡◌, refl, ap, Bool, true, false, not, List, [], ◌∷◌, ◌++◌, All, arith, if_cases, ◌⊎◌,
  inl, inr,
}
use robot_brain.Server.{
  EventType, connect, finish, status_read, status_write, status_alarm, Kind, task_session,
  status_session, Tag, Server, Request, create, reset, schedule_next_write, handle_kind,
  handle_event, start_server, complete, Reach, find_session, is_finished,
}

-- An event that the session's `HandleEvent` has a case for and that some operation is given.
abbrev pub IsExpected : Kind → EventType → Type 0
IsExpected task_session connect = Unit
IsExpected task_session finish = Unit
IsExpected status_session status_read = Unit
IsExpected status_session status_write = Unit
IsExpected status_session status_alarm = Unit
IsExpected _ _ = ⊥

-- 1 for a tag that waits for the next client of kind `k`.
abbrev pub listens : Kind → Kind → EventType → ℕ
listens task_session task_session connect = 1
listens status_session status_session status_read = 1
listens _ _ _ = 0

abbrev pub listening : Kind → List Tag → ℕ
listening k [] = 0
listening k (t ∷ ts) = listens k t.kind t.type + listening k ts

listening-append :
    (k : Kind) (xs ys : List Tag) → listening k (xs ++ ys) ≡ listening k xs + listening k ys
listening-append k [] ys = omega arith
listening-append k (x ∷ xs) ys = omega (arith, listening-append k xs ys)

All-middle :
    (P : Tag → Type 0) (xs : List Tag) (t : Tag) (ys : List Tag)
    → All P (xs ++ t ∷ ys)
    → P t × All P (xs ++ ys)
All-middle P [] t ys h = h
All-middle P (x ∷ xs) t ys (p, h) = let (q, rest) = All-middle P xs t ys h in (q, (p, rest))

abbrev pub IsExpectedTag : Tag → Type 0
IsExpectedTag t = IsExpected t.kind t.type

module _ {F : Type 0} where
  -- A listener that is answered is replaced; nothing else makes or takes one.
  listening-handle_kind :
      (k j : Kind) (e : EventType) (i : ℕ) (r : Request F) (s : Server F)
      → IsExpected j e
      → listening k (handle_kind j e i r s).tags ≡ listening k s.tags + listens k j e
  unfolding handle_kind create reset schedule_next_write
  listening-handle_kind task_session task_session connect i r s h = ground arith
  listening-handle_kind status_session task_session connect i r s h = ground arith
  listening-handle_kind task_session task_session finish i r s h = ground arith
  listening-handle_kind status_session task_session finish i r s h = ground arith
  listening-handle_kind task_session status_session status_read i r s h = ground arith
  listening-handle_kind status_session status_session status_read i r s h = ground arith
  listening-handle_kind task_session status_session status_write i r s h = ground arith
  listening-handle_kind status_session status_session status_write i r s h = ground arith
  listening-handle_kind task_session status_session status_alarm i r s h = ground arith
  listening-handle_kind status_session status_session status_alarm i r s h = ground arith
  listening-handle_kind k j e i r s h = absurd h

  expected-handle_kind :
      (j : Kind) (e : EventType) (i : ℕ) (r : Request F) (s : Server F)
      → IsExpected j e
      → All IsExpectedTag s.tags
      → All IsExpectedTag (handle_kind j e i r s).tags
  unfolding handle_kind create reset schedule_next_write
  expected-handle_kind task_session connect i r s h all = (tt, (tt, all))
  expected-handle_kind task_session finish i r s h all = all
  expected-handle_kind status_session status_read i r s h all = (tt, (tt, all))
  expected-handle_kind status_session status_write i r s h all = (tt, all)
  expected-handle_kind status_session status_alarm i r s h all =
      if_cases {A = Server F} (λ q. All IsExpectedTag q.tags)
        (not (is_finished (find_session i s.sessions))) _ _ (λ _. (tt, all)) (λ _. all)
  expected-handle_kind j e i r s h all = absurd h

  expected-handle_event :
      (t : Tag) (ok : Bool) (r : Request F) (s : Server F)
      → IsExpectedTag t
      → All IsExpectedTag s.tags
      → All IsExpectedTag (handle_event t ok r s).tags
  unfolding handle_event reset
  expected-handle_event t true r s h all = expected-handle_kind t.kind t.type t.owner r s h all
  expected-handle_event t false r s h all = all

  -- In every run of the server each outstanding tag is one that its session expects: the `default`
  -- branches of the two `HandleEvent`s are never reached, nor the one for STATUS_FINISH.
  pub Reach-expected : {s : Server F} → Reach s → All IsExpectedTag s.tags
  unfolding start_server create
  Reach-expected Reach.start = (tt, (tt, tt))
  Reach-expected (Reach.next {s = s} r (complete before t after ok req e)) =
      let all : All IsExpectedTag (before ++ t ∷ after) = rw e at (Reach-expected r) in
      let (h, rest) = All-middle IsExpectedTag before t after all in
      expected-handle_event t ok req _ h rest

  -- A run in which no listener's completion fails, as gRPC promises until the server is shut down.
  pub data Serving : Server F → Type 0 where
    start : Serving start_server
    next :
        {s : Server F} (before : List Tag) (t : Tag) (after : List Tag) (ok : Bool) (r : Request F)
        → Serving s
        → s.tags ≡ before ++ t ∷ after
        → (ok ≡ true) ⊎ ((k : Kind) → listens k t.kind t.type ≡ 0)
        → Serving (handle_event t ok r (record s { tags = before ++ after }))

  Serving-Reach : {s : Server F} → Serving s → Reach s
  Serving-Reach start = Reach.start
  Serving-Reach (next before t after ok r run e h) =
      Reach.next (Serving-Reach run) (complete before t after ok r e)

  listening-handle_event :
      (k : Kind) (t : Tag) (ok : Bool) (r : Request F) (s : Server F)
      → IsExpectedTag t
      → (ok ≡ true) ⊎ ((j : Kind) → listens j t.kind t.type ≡ 0)
      → listening k (handle_event t ok r s).tags ≡ listening k s.tags + listens k t.kind t.type
  unfolding handle_event reset
  listening-handle_event k t true r s h o = listening-handle_kind k t.kind t.type t.owner r s h
  listening-handle_event k t false r s h (inl o) = cc
  listening-handle_event k t false r s h (inr o) = omega (arith, o k)

  -- As long as no listener's completion fails, exactly one session of each kind waits for the next
  -- client.
  pub Serving-listening : {s : Server F} (k : Kind) → Serving s → listening k s.tags ≡ 1
  unfolding start_server create
  Serving-listening task_session start = refl
  Serving-listening status_session start = refl
  Serving-listening k (next {s = s} before t after ok r run e h) =
      let all : All IsExpectedTag (before ++ t ∷ after) =
        rw e at (Reach-expected (Serving-Reach run)) in
      let here = (All-middle IsExpectedTag before t after all).0 in
      omega (
        arith,
        listening-handle_event k t ok r (record s { tags = before ++ after }) here h,
        Serving-listening k run,
        ap (listening k) e,
        listening-append k before (t ∷ after),
        listening-append k before after,
      )
