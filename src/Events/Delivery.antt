-- ===== src/Events/Delivery.antt =====
-- A client that resumes at a cursor gets every event behind it once, in order.
use favetto.Common.{
  ℕ, ◌+◌, ◌≤◌, ◌≡◌, sym, ap, ◌∙◌, subst, arith, List, [], ◌++◌, All, length, length-append, take,
  drop, map, some,
}
use mathlib.Core.List.{append_assoc}
use favetto.Model.Task.{Event}
use favetto.Executor.State.{State, Push}
use favetto.Events.Stream.{
  events_after, OnLag, Received, pushed, follow, replay, resumable, ingest_pushes,
}
use favetto.Events.Numbers.{
  Numbered, Numbered-append, newer, newer-append, Numbered-newer, order_by-Numbered, top, top-le,
  top-All, top-Numbered, newer_none, newer_same, newer-All,
}
use favetto.Events.Emissions.{Reach, Emitted, Reach-Emitted, events_of, events_of-append}
use favetto.Events.Ingest.{
  ingest-Numbered, replayed, All-right, ingest-append, follow-pushed, length-map_event, drop-append,
  take_all,
}

-- what the subscription receives without a lag: all that is published after it was made
abbrev pub live_pushes : State → State → List Received
live_pushes s t = map pushed (drop (length s.bus) t.bus)

module _ {s₀ s₁ s₂ : State} (to_query : Reach s₀ s₁) (from_query : Reach s₁ s₂)
    (numbered : Numbered 0 s₀.db.events s₀.db.next_event_id) where
  before : Emitted s₀ s₁
  before = Reach-Emitted to_query

  after : Emitted s₁ s₂
  after = Reach-Emitted from_query

  log-Numbered : Numbered 0 s₁.db.events s₁.db.next_event_id
  log-Numbered =
      subst (λ es. Numbered 0 es s₁.db.next_event_id) (sym before.log)
        (Numbered-append 0 s₀.db.events s₀.db.next_event_id (events_of before.pushes)
          s₁.db.next_event_id numbered before.numbered)

  published : s₂.bus ≡ s₀.bus ++ (before.pushes ++ after.pushes)
  published =
      after.bus
      ∙ ap (λ b. b ++ after.pushes) before.bus
      ∙ append_assoc s₀.bus before.pushes after.pushes

  live-follow : (on_lag : OnLag) → follow on_lag (live_pushes s₀ s₂) ≡ before.pushes ++ after.pushes
  live-follow on_lag =
      follow-pushed on_lag (drop (length s₀.bus) s₂.bus)
      ∙ ap (drop (length s₀.bus)) published
      ∙ drop-append s₀.bus (before.pushes ++ after.pushes)

  events_after-newer :
      (c limit : ℕ)
      → length (newer c s₁.db.events) ≤ limit
      → events_after c limit s₁.db ≡ newer c s₁.db.events
  unfolding events_after
  events_after-newer c limit enough =
      ap (take limit) (
        order_by-Numbered 0 (newer c s₁.db.events) s₁.db.next_event_id
          (Numbered-newer c 0 s₁.db.events s₁.db.next_event_id log-Numbered))
      ∙ take_all limit (newer c s₁.db.events) enough

  -- the replay and the live pushes, taken by a client at the cursor
  ingest_both :
      (c : ℕ) (ys : List Event)
      → (ingest_pushes
          (map Push.event (newer c s₁.db.events) ++ (before.pushes ++ after.pushes))
          (record { last_event_id = c; events = ys })).events
        ≡ ys ++ newer c s₂.db.events
  ingest_both c ys =
      let log = s₁.db.events in
      let m = top c (newer c log) in
      let a = events_of before.pushes in
      let b = events_of after.pushes in
      let rest = before.pushes ++ after.pushes in
      let split = events_of-append before.pushes after.pushes in
      let new-Numbered : Numbered s₀.db.next_event_id (events_of rest) s₂.db.next_event_id =
        subst (λ es. Numbered s₀.db.next_event_id es s₂.db.next_event_id) (sym split)
          (Numbered-append s₀.db.next_event_id a s₁.db.next_event_id b s₂.db.next_event_id
            before.numbered after.numbered) in
      let old : newer m a ≡ [] = newer_none m a (
        All-right (λ e. e.id ≤ m) s₀.db.events a
          (subst (All (λ e. e.id ≤ m)) before.log
            (newer-All c m log (top-le c (newer c log)) (top-All c (newer c log))))) in
      let new : newer m b ≡ newer c b =
        newer_same c m s₁.db.next_event_id b s₂.db.next_event_id after.numbered (
          ground (
            arith,
            top-le c (newer c log),
            top-Numbered c 0 (newer c log) s₁.db.next_event_id
                (Numbered-newer c 0 log s₁.db.next_event_id log-Numbered),
          )) in
      ap (λ s. s.events)
        (ingest-append (map Push.event (newer c log)) rest
          (record { last_event_id = c; events = ys }))
      ∙ ap (λ s. (ingest_pushes rest s).events)
          (replayed log c 0 ys s₁.db.next_event_id log-Numbered)
      ∙ ap (λ s. s.events)
          (ingest-Numbered rest m s₀.db.next_event_id (ys ++ newer c log) s₂.db.next_event_id
            new-Numbered)
      ∙ ap (λ es. (ys ++ newer c log) ++ es)
          (ap (newer m) split ∙ newer-append m a b ∙ ap (λ es. es ++ newer m b) old ∙ new)
      ∙ append_assoc ys (newer c log) (newer c b)
      ∙ ap (λ es. ys ++ es) (sym (newer-append c log b) ∙ ap (newer c) (sym after.log))

  -- A client resumes at a cursor: it subscribes, its replay is read from the log later, and it
  -- stays connected while more happens, of which it misses nothing by a lag. If the events behind
  -- its cursor are not more than the limit of the replay, then it ends up with the events behind
  -- its cursor, all those in the log in the end, once each and in the order of their numbers.
  pub resumable-newer :
      (c limit accepted : ℕ) (on_lag : OnLag) (ys : List Event)
      → length (newer c s₁.db.events) ≤ limit
      → length (newer c s₁.db.events) + length s₂.bus ≤ accepted
      → (ingest_pushes
          (resumable s₁.db (some c) limit on_lag (live_pushes s₀ s₂) accepted)
          (record { last_event_id = c; events = ys })).events
        ≡ ys ++ newer c s₂.db.events
  unfolding resumable replay
  resumable-newer c limit accepted on_lag ys enough room =
      let sent = map Push.event (newer c s₁.db.events) ++ (before.pushes ++ after.pushes) in
      let replay_then_live : resumable s₁.db (some c) limit on_lag (live_pushes s₀ s₂) accepted
          ≡ take accepted sent =
        ap (λ es. take accepted (map Push.event es ++ follow on_lag (live_pushes s₀ s₂)))
          (events_after-newer c limit enough)
        ∙ ap (λ ps. take accepted (map Push.event (newer c s₁.db.events) ++ ps))
            (live-follow on_lag) in
      let size : length sent ≤ accepted = omega (
        arith,
        room,
        length-append (map Push.event (newer c s₁.db.events)) (before.pushes ++ after.pushes),
        length-map_event (newer c s₁.db.events),
        ap length published,
        length-append s₀.bus (before.pushes ++ after.pushes),
      ) in
      ap (λ ps. (ingest_pushes ps (record { last_event_id = c; events = ys })).events)
        (replay_then_live ∙ take_all accepted sent size)
      ∙ ingest_both c ys
