-- ===== src/Events/Ingest.antt =====
-- What a client makes of pushes in the order of their numbers: `ingest_event` of
-- crates/favetto-tui/src/tui/app/mod.rs.
use favetto.Common.{
  ℕ, suc, ◌≤◌, ◌<◌, max, ◌≡◌, inl, inr, refl, sym, ap, ◌∙◌, subst, arith, Bool-cases, List, [], ◌∷◌,
  ◌++◌, All, ltb, length, take, drop, map,
}
use mathlib.Core.List.{append_assoc, append-nil}
use favetto.Model.Task.{Event}
use favetto.Executor.State.{Push}
use favetto.Events.Stream.{OnLag, pushed, follow, Seen, ingest_event, ingest_pushes}
use favetto.Events.Numbers.{Numbered, newer, Numbered-newer, top, newer_same, newer_twice}
use favetto.Events.Emissions.{events_of}

-- A client takes the events behind its cursor, and its cursor goes to the last of them.
pub ingest-Numbered :
    (ps : List Push) (c n : ℕ) (ys : List Event) (m : ℕ)
    → Numbered n (events_of ps) m
    → ingest_pushes ps (record { last_event_id = c; events = ys }) ≡ record {
      last_event_id = top c (newer c (events_of ps));
      events = ys ++ newer c (events_of ps);
    }
unfolding ingest_pushes ingest_event
ingest-Numbered [] c n ys m h =
    ap (λ es. record { last_event_id = c; events = es }) (sym (append-nil ys))
ingest-Numbered (Push.task_updated t ∷ ps) c n ys m h = ingest-Numbered ps c n ys m h
ingest-Numbered (Push.event e ∷ ps) c n ys m h = elim (Bool-cases (ltb c e.id)) [
  | inr old ↦ rw (ingest_event, old) (ingest-Numbered ps c (suc e.id) ys m h.1)
  | inl new ↦
      let rest = events_of ps in
      let below : c < e.id = ground (arith, new) in
      let same : newer e.id rest ≡ newer c rest =
        newer_same c e.id (suc e.id) rest m h.1 (inr (omega (arith, below), omega arith)) in
      let cursor : max c e.id ≡ e.id = omega (arith, below) in
      rw (ingest_event, new)
        (ingest-Numbered ps e.id (suc e.id) (ys ++ e ∷ []) m h.1
          ∙ ap (λ es. record { last_event_id = top e.id es; events = (ys ++ e ∷ []) ++ es }) same
          ∙ ap (λ es. record { last_event_id = top e.id (newer c rest); events = es })
              (append_assoc ys (e ∷ []) (newer c rest))
          ∙ ap
              (λ k. record {
                last_event_id = top k (newer c rest);
                events = ys ++ e ∷ newer c rest;
              })
              (sym cursor))
]

pub events_of-map : (es : List Event) → events_of (map Push.event es) ≡ es
events_of-map [] = refl
events_of-map (e ∷ es) = ap (λ xs. e ∷ xs) (events_of-map es)

-- the same for a replay
pub replayed :
    (es : List Event) (c n : ℕ) (ys : List Event) (m : ℕ)
    → Numbered n es m
    → ingest_pushes (map Push.event (newer c es)) (record { last_event_id = c; events = ys })
      ≡ record { last_event_id = top c (newer c es); events = ys ++ newer c es }
replayed es c n ys m h =
    let new = newer c es in
    let listed = events_of-map new in
    ingest-Numbered (map Push.event new) c n ys m
      (subst (λ xs. Numbered n xs m) (sym listed) (Numbered-newer c n es m h))
    ∙ ap (λ xs. record { last_event_id = top c xs; events = ys ++ xs })
        (ap (newer c) listed ∙ newer_twice c es)

pub All-right : {A : Type 0} (P : A → Type 0) (xs ys : List A) → All P (xs ++ ys) → All P ys
All-right P [] ys h = h
All-right P (x ∷ xs) ys h = All-right P xs ys h.1

pub ingest-append :
    (ps qs : List Push) (s : Seen)
    → ingest_pushes (ps ++ qs) s ≡ ingest_pushes qs (ingest_pushes ps s)
unfolding ingest_pushes
ingest-append [] qs s = refl
ingest-append (Push.event e ∷ ps) qs s = ingest-append ps qs (ingest_event e s)
ingest-append (Push.task_updated t ∷ ps) qs s = ingest-append ps qs s

pub follow-pushed : (on_lag : OnLag) (ps : List Push) → follow on_lag (map pushed ps) ≡ ps
unfolding follow
follow-pushed on_lag [] = refl
follow-pushed on_lag (p ∷ ps) = ap (λ qs. p ∷ qs) (follow-pushed on_lag ps)

pub length-map_event : (es : List Event) → length (map Push.event es) ≡ length es
length-map_event [] = refl
length-map_event (e ∷ es) = ap suc (length-map_event es)

pub drop-append : {A : Type 0} (xs ys : List A) → drop (length xs) (xs ++ ys) ≡ ys
drop-append [] ys = refl
drop-append (x ∷ xs) ys = drop-append xs ys

pub take_all : {A : Type 0} (n : ℕ) (xs : List A) → length xs ≤ n → take n xs ≡ xs
take_all ℕ.zero [] h = refl
take_all ℕ.zero (x ∷ xs) h = absurd (omega (arith, h))
take_all (suc n) [] h = refl
take_all (suc n) (x ∷ xs) h = ap (λ ys. x ∷ ys) (take_all n xs (omega (arith, h)))
