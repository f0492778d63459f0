-- ===== src/Attention/Waiting.antt =====
-- When the debouncer of crates/favetto/src/attention.rs holds that an agent waits: a description
-- by the polls alone, without counters.
use favetto.Common.{
  ℕ, suc, ◌≡◌, refl, sym, ap, subst, ◌∙◌, ◌↔◌, Bool, true, false, ◌&&◌, ◌||◌, is_some,
  if◌then◌else◌, List, [], ◌∷◌, ◌++◌, Option, none, some, ltb, arith,
}
use favetto.Model.Prompt.{AwaitingInputReason}
use favetto.Attention.Debouncer.{
  Debouncer, Edge, mark, clear, fresh_debouncer, observe, observe_match, observe_miss,
}

-- what the polls detected, the latest first
abbrev pub Polls : Type 0
Polls = List (Option AwaitingInputReason)

-- the debouncer after these polls
unfoldable pub observed : Polls → Debouncer
observed [] = fresh_debouncer
observed (p ∷ ps) = (observe p (observed ps)).0

abbrev pub leading_misses : Polls → ℕ
leading_misses [] = 0
leading_misses (some r ∷ ps) = 0
leading_misses (none ∷ ps) = suc (leading_misses ps)

abbrev pub last_detected : Polls → Option AwaitingInputReason
last_detected [] = none
last_detected (some r ∷ ps) = some r
last_detected (none ∷ ps) = last_detected ps

-- three misses in a row
abbrev pub has_gap : Polls → Bool
has_gap [] = false
has_gap (p ∷ ps) = ltb 2 (leading_misses (p ∷ ps)) || has_gap ps

-- Two detections in a row, and behind them no three misses in a row.
abbrev pub Waiting : Polls → Type 0
Waiting ps =
    (recent older : Polls) × (r q : AwaitingInputReason) × (ps ≡ recent ++ some r ∷ some q ∷ older)
    × (has_gap recent ≡ false)

-- what a change of the confirmed reason is reported as
abbrev pub reported : Option AwaitingInputReason → Option AwaitingInputReason → Option Edge
reported none (some r) = some (mark r)
reported (some r) none = some clear
reported none none = none
reported (some q) (some r) = none

abbrev starts_matched : Polls → Bool
starts_matched (some r ∷ ps) = true
starts_matched (none ∷ ps) = false
starts_matched [] = false

abbrev waits : Polls → Bool
waits [] = false
waits (some r ∷ ps) = starts_matched ps || waits ps
waits (none ∷ ps) = waits ps && ltb (leading_misses ps) 2

-- what the counters hold after the polls
abbrev Tracks : Polls → Debouncer → Type 0
Tracks ps d =
    (is_some d.confirmed ≡ waits ps)
    × (waits ps ≡ true → (d.confirmed ≡ last_detected ps) × (d.misses ≡ leading_misses ps))
    × (waits ps ≡ false → d.matches ≡ (if starts_matched ps then 1 else 0))

Tracks-match :
    (r : AwaitingInputReason) (ps : Polls) (d : Debouncer)
    → Tracks ps d
    → Tracks (some r ∷ ps) (observe_match r d).0
unfolding observe_match
Tracks-match r ps d h = ground arith

Tracks-miss : (ps : Polls) (d : Debouncer) → Tracks ps d → Tracks (none ∷ ps) (observe_miss d).0
unfolding observe_miss
Tracks-miss ps d h = ground arith

observed-Tracks : (ps : Polls) → Tracks ps (observed ps)
unfolding observed observe
observed-Tracks [] = (refl, λ h. ground arith, λ h. refl)
observed-Tracks (some r ∷ ps) = Tracks-match r ps (observed ps) (observed-Tracks ps)
observed-Tracks (none ∷ ps) = Tracks-miss ps (observed ps) (observed-Tracks ps)

-- a gap is looked for from the latest poll
leading_misses-before :
    (recent older : Polls) (r : AwaitingInputReason)
    → leading_misses (recent ++ some r ∷ older) ≡ leading_misses recent
leading_misses-before [] older r = refl
leading_misses-before (some p ∷ recent) older r = refl
leading_misses-before (none ∷ recent) older r = ap suc (leading_misses-before recent older r)

waits-Waiting : (ps : Polls) → waits ps ≡ true → Waiting ps
waits-Waiting [] h = ground arith
waits-Waiting (some r ∷ []) h = ground arith
waits-Waiting (some r ∷ some q ∷ ps) h = ([], ps, r, q, refl, refl)
waits-Waiting (some r ∷ none ∷ ps) h =
    let (recent, older, p, q, e, k) = waits-Waiting (none ∷ ps) h in
    (some r ∷ recent, older, p, q, ap (◌∷◌ (some r)) e, k)
waits-Waiting (none ∷ ps) h =
    let (recent, older, p, q, e, k) = waits-Waiting ps (ground arith) in
    (
      none ∷ recent,
      older,
      p,
      q,
      ap (◌∷◌ none) e,
      ground (arith, leading_misses-before recent (some q ∷ older) p, ap leading_misses e),
    )

waits-after :
    (recent older : Polls) (r q : AwaitingInputReason)
    → has_gap recent ≡ false
    → waits (recent ++ some r ∷ some q ∷ older) ≡ true
waits-after [] older r q h = refl
waits-after (some p ∷ recent) older r q h = ground (arith, waits-after recent older r q)
waits-after (none ∷ recent) older r q h =
    ground (arith, waits-after recent older r q, leading_misses-before recent (some q ∷ older) r)

Waiting-waits : (ps : Polls) → Waiting ps → waits ps ≡ true
Waiting-waits ps (recent, older, r, q, e, k) =
    subst (λ x. waits x ≡ true) (sym e) (waits-after recent older r q k)

observe-reported :
    (p : Option AwaitingInputReason) (d : Debouncer)
    → (observe p d).1 ≡ reported d.confirmed (observe p d).0.confirmed
unfolding observe observe_match observe_miss
observe-reported (some r) d = ground arith
observe-reported none d = ground arith

-- The debouncer has a reason confirmed exactly if two polls in a row detected a prompt and no
-- three polls in a row behind them missed it. The reason is the one detected last. A poll reports
-- an edge exactly when it changes this: a mark with the reason when a reason is confirmed, a clear
-- when none is left.
pub observe-Waiting :
    (p : Option AwaitingInputReason) (ps : Polls)
    → let d = observed (p ∷ ps) in
      ((is_some d.confirmed ≡ true) ↔ Waiting (p ∷ ps))
      × (Waiting (p ∷ ps) → d.confirmed ≡ last_detected (p ∷ ps))
      × ((observe p (observed ps)).1 ≡ reported (observed ps).confirmed d.confirmed)
unfolding observed
observe-Waiting p ps =
    let (confirms, holds, counts) = observed-Tracks (p ∷ ps) in
    (
      (λ e. waits-Waiting (p ∷ ps) (sym confirms ∙ e), λ w. confirms ∙ Waiting-waits (p ∷ ps) w),
      λ w. (holds (Waiting-waits (p ∷ ps) w)).0,
      observe-reported p (observed ps),
    )
