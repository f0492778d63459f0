-- ===== src/Attention/Debouncer.antt =====
-- The hysteresis over the raw detections, `Debouncer` of crates/favetto/src/attention.rs.
use favetto.Common.{ℕ, ◌+◌, is_some, Option, none, some, leb, if◌then◌else◌}
use favetto.Model.Prompt.{AwaitingInputReason}

abbrev pub mark_streak : ℕ
mark_streak = 2

abbrev pub clear_streak : ℕ
clear_streak = 3

pub data Edge : Type 0 where
  mark : AwaitingInputReason → Edge
  clear : Edge

-- the two counters are u32; they never pass the thresholds
pub record Debouncer : Type 0 where
  pub confirmed : Option AwaitingInputReason
  pub matches : ℕ
  pub misses : ℕ

abbrev pub fresh_debouncer : Debouncer
fresh_debouncer = record { confirmed = none; matches = 0; misses = 0 }

-- a poll that detects a prompt
unfoldable pub observe_match : AwaitingInputReason → Debouncer → Debouncer × Option Edge
observe_match reason d =
    if is_some d.confirmed
    then (record { confirmed = some reason; matches = 0; misses = 0 }, none)
    else if leb mark_streak (d.matches + 1)
    then (record { confirmed = some reason; matches = 0; misses = 0 }, some (mark reason))
    else (record d { matches = d.matches + 1; misses = 0 }, none)

-- a poll that detects none
unfoldable pub observe_miss : Debouncer → Debouncer × Option Edge
observe_miss d =
    if is_some d.confirmed
    then if leb clear_streak (d.misses + 1)
      then (record { confirmed = none; matches = 0; misses = 0 }, some clear)
      else (record d { matches = 0; misses = d.misses + 1 }, none)
    else (record d { matches = 0 }, none)

unfoldable pub observe : Option AwaitingInputReason → Debouncer → Debouncer × Option Edge
unfolding observe_match observe_miss
observe none d = observe_miss d
observe (some reason) d = observe_match reason d
