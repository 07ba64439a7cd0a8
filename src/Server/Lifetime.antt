-- ===== src/Server/Lifetime.antt =====
-- Sessions live exactly as long as the one tag that points to them.
use robot_brain.Base.{
  ℕ, suc, ◌+◌, ◌-◌, min, ◌≤◌, ◌≡◌, refl, sym, ap, ◌∙◌, Bool, true, false, List, [], ◌∷◌, ◌++◌,
  arith, ◌==◌, if◌then◌else◌,
}
use robot_brain.Base.Int.{ℤ}
use robot_brain.Server.{
  EventType, connect, finish, status_read, status_write, status_alarm, status_finish, Kind,
  task_session, status_session, Session, Tag, Server, Request, remove_session, find_session,
  set_interval, add_tag, write_status, create, reset, task_event, status_event, handle_kind,
  handle_event, start_server, schedule_next_write, complete, Reach, start, next, is_finished,
}

-- How many live sessions have the id, and how many outstanding tags point to it.
abbrev pub sessions_of : ℕ → List Session → ℕ
sessions_of i [] = 0
sessions_of i (s ∷ ss) = (if s.id == i then 1 else 0) + sessions_of i ss

abbrev pub tags_of : ℕ → List Tag → ℕ
tags_of i [] = 0
tags_of i (t ∷ ts) = (if t.owner == i then 1 else 0) + tags_of i ts

-- Nobody has finished the session's stream.
abbrev pub NoneFinished : List Session → Type 0
NoneFinished [] = Unit
NoneFinished (s ∷ ss) = (s.finished ≡ false) × NoneFinished ss

tags_of-append : (i : ℕ) (xs ys : List Tag) → tags_of i (xs ++ ys) ≡ tags_of i xs + tags_of i ys
tags_of-append i [] ys = omega arith
tags_of-append i (x ∷ xs) ys = omega (arith, tags_of-append i xs ys)

sessions_of-remove :
    (i j : ℕ) (ss : List Session)
    → sessions_of j (remove_session i ss)
      ≡ sessions_of j ss - (if i == j then min 1 (sessions_of i ss) else 0)
sessions_of-remove i j [] = ground arith
sessions_of-remove i j (s ∷ ss) = ground (arith, sessions_of-remove i j ss)

NoneFinished-remove :
    (i : ℕ) (ss : List Session) → NoneFinished ss → NoneFinished (remove_session i ss)
NoneFinished-remove i [] n = tt
NoneFinished-remove i (s ∷ ss) n = ground (arith, NoneFinished-remove i ss n.1)

sessions_of-set_interval :
    (i j : ℕ) (ms : ℤ) (ss : List Session) → sessions_of j (set_interval i ms ss) ≡ sessions_of j ss
sessions_of-set_interval i j ms [] = refl
sessions_of-set_interval i j ms (s ∷ ss) = ground (arith, sessions_of-set_interval i j ms ss)

NoneFinished-set_interval :
    (i : ℕ) (ms : ℤ) (ss : List Session) → NoneFinished ss → NoneFinished (set_interval i ms ss)
NoneFinished-set_interval i ms [] n = tt
NoneFinished-set_interval i ms (s ∷ ss) n = ground (arith, NoneFinished-set_interval i ms ss n.1)

find-unfinished :
    (i : ℕ) (ss : List Session) → NoneFinished ss → is_finished (find_session i ss) ≡ false
find-unfinished i [] n = refl
find-unfinished i (s ∷ ss) n = ground (arith, find-unfinished i ss n.1)

module _ {F : Type 0} where
  -- Each id has at most one live session, which has exactly one outstanding tag; an id that is not
  -- live has none, and the ids to come are unused.
  pub record IsPaired (s : Server F) : Type 0 where
    pub paired : (i : ℕ) → tags_of i s.tags ≡ sessions_of i s.sessions
    pub single : (i : ℕ) → sessions_of i s.sessions ≤ 1
    pub fresh : (i : ℕ) → s.next_id ≤ i → sessions_of i s.sessions ≡ 0
    pub unfinished : NoneFinished s.sessions

  -- The server between a completion and the end of its handler: the tag of `i` is gone.
  record IsHandling (i : ℕ) (s : Server F) : Type 0 where
    paired : (j : ℕ) → tags_of j s.tags + (if i == j then 1 else 0) ≡ sessions_of j s.sessions
    single : (j : ℕ) → sessions_of j s.sessions ≤ 1
    fresh : (j : ℕ) → s.next_id ≤ j → sessions_of j s.sessions ≡ 0
    unfinished : NoneFinished s.sessions

  reset-IsPaired : (i : ℕ) (s : Server F) → IsHandling i s → IsPaired (reset i s)
  unfolding reset
  reset-IsPaired i s h = record {
    paired =
        λ j. ground (arith, h.paired j, h.paired i, sessions_of-remove i j s.sessions, h.single i);
    single = λ j. ground (arith, sessions_of-remove i j s.sessions, h.single j);
    fresh = λ j p. ground (arith, sessions_of-remove i j s.sessions, h.fresh j p);
    unfinished = NoneFinished-remove i s.sessions h.unfinished;
  }

  -- A handler that hangs up one new tag.
  again-IsPaired :
      (i : ℕ) (k : Kind) (t : EventType) (s : Server F)
      → IsHandling i s
      → IsPaired (add_tag i k t s)
  again-IsPaired i k t s h = record {
    paired = λ j. ground (arith, h.paired j);
    single = h.single;
    fresh = h.fresh;
    unfinished = h.unfinished;
  }

  create-IsHandling : (i : ℕ) (k : Kind) (s : Server F) → IsHandling i s → IsHandling i (create k s)
  unfolding create
  create-IsHandling i k s h = record {
    paired = λ j. ground (arith, h.paired j);
    single = λ j. ground (arith, h.single j, h.fresh j);
    fresh = λ j p. ground (arith, h.fresh j);
    unfinished = (refl, h.unfinished);
  }

  task-IsPaired :
      (t : EventType) (i : ℕ) (r : Request F) (s : Server F)
      → IsHandling i s
      → IsPaired (task_event t i r s)
  unfolding task_event
  task-IsPaired connect i r s h =
      let k = create-IsHandling i task_session s h in
      again-IsPaired i task_session finish
        (record (create task_session s) { assigned = r.task ∷ (create task_session s).assigned })
        (record {
          paired = k.paired;
          single = k.single;
          fresh = k.fresh;
          unfinished = k.unfinished;
        })
  task-IsPaired finish i r s h = reset-IsPaired i s h
  task-IsPaired _ i r s h = reset-IsPaired i s h

  interval-IsHandling :
      (i : ℕ) (ms : ℤ) (s : Server F)
      → IsHandling i s
      → IsHandling i (record s { sessions = set_interval i ms s.sessions })
  interval-IsHandling i ms s h = record {
    paired = λ j. h.paired j ∙ sym (sessions_of-set_interval i j ms s.sessions);
    single = λ j. omega (arith, h.single j, sessions_of-set_interval i j ms s.sessions);
    fresh = λ j p. sessions_of-set_interval i j ms s.sessions ∙ h.fresh j p;
    unfinished = NoneFinished-set_interval i ms s.sessions h.unfinished;
  }

  write-IsPaired : (i : ℕ) (s : Server F) → IsHandling i s → IsPaired (write_status i s)
  write-IsPaired i s h =
      again-IsPaired i status_session status_write (record s { written = suc s.written })
        (record {
          paired = h.paired;
          single = h.single;
          fresh = h.fresh;
          unfinished = h.unfinished;
        })

  status-IsPaired :
      (t : EventType) (i : ℕ) (r : Request F) (s : Server F)
      → IsHandling i s
      → IsPaired (status_event t i r s)
  unfolding status_event schedule_next_write
  status-IsPaired status_read i r s h =
      write-IsPaired i _
        (create-IsHandling i status_session _ (interval-IsHandling i r.interval_ms s h))
  status-IsPaired status_write i r s h =
      again-IsPaired i status_session status_alarm _ (record {
        paired = h.paired;
        single = h.single;
        fresh = h.fresh;
        unfinished = h.unfinished;
      })
  status-IsPaired status_alarm i r s h =
      rw (find-unfinished i s.sessions h.unfinished) (write-IsPaired i s h)
  status-IsPaired status_finish i r s h = reset-IsPaired i s h
  status-IsPaired _ i r s h = reset-IsPaired i s h

  event-IsPaired :
      (k : Kind) (t : EventType) (i : ℕ) (r : Request F) (s : Server F)
      → IsHandling i s
      → IsPaired (handle_kind k t i r s)
  unfolding handle_kind
  event-IsPaired task_session t i r s h = task-IsPaired t i r s h
  event-IsPaired status_session t i r s h = status-IsPaired t i r s h

  handle-IsPaired :
      (t : Tag) (ok : Bool) (r : Request F) (s : Server F)
      → IsHandling t.owner s
      → IsPaired (handle_event t ok r s)
  unfolding handle_event
  handle-IsPaired t true r s h = event-IsPaired t.kind t.type t.owner r s h
  handle-IsPaired t false r s h = reset-IsPaired t.owner s h

  taken-IsHandling :
      (s : Server F) (before : List Tag) (t : Tag) (after : List Tag)
      → s.tags ≡ before ++ t ∷ after
      → IsPaired s
      → IsHandling t.owner (record s { tags = before ++ after })
  taken-IsHandling s before t after e p = record {
    paired = λ j. ground (
      arith,
      p.paired j,
      ap (tags_of j) e,
      tags_of-append j before (t ∷ after),
      tags_of-append j before after,
    );
    single = p.single;
    fresh = p.fresh;
    unfinished = p.unfinished;
  }

  start-IsPaired : IsPaired start_server
  unfolding start_server create
  start-IsPaired = record {
    paired = λ i. refl;
    single = λ i. ground arith;
    fresh = λ i h. ground arith;
    unfinished = (refl, (refl, tt));
  }

  -- In every run of the server each live session has exactly one outstanding tag, and every
  -- outstanding tag belongs to a live session: a completion never reaches a session that is gone,
  -- and no live session is forgotten. No two live sessions share a number, the next number is
  -- free, and none is marked finished.
  pub Reach-IsPaired : {s : Server F} → Reach s → IsPaired s
  Reach-IsPaired start = start-IsPaired
  Reach-IsPaired (next {s = s} r (complete before t after ok req e)) =
      handle-IsPaired t ok req _ (taken-IsHandling s before t after e (Reach-IsPaired r))
