-- ===== src/Examples/Watched.antt =====
-- A watched session at the sample state.
use favetto.Common.{◌≡◌, refl, true, false, [], ◌∷◌, none, some}
use favetto.Model.Status.{TaskStatus}
use favetto.Model.Task.{pos}
use favetto.Model.Prompt.{AwaitingInputKind, AwaitingInputReason}
use favetto.Store.Tasks.{cancel_active_task}
use favetto.Attention.Waiting.{last_detected, Waiting}
use favetto.Attention.Watch.{
  TryRecv, Poll, WatchArgs, WatchEnd, watcher, poll_once, watch_polls, watch_inner,
}
use favetto.Attention.Rests.{watch_inner-rests}
use favetto.Attention.Writes.{Nowhere}
use favetto.Attention.Mirrors.{history, Shows, poll_once-Shows}
use favetto.Examples.Data.{state}

abbrev reason : AwaitingInputReason
reason = record {
  kind = AwaitingInputKind.permission;
  message = [];
  request_id = none;
  options = [];
  allow_always = false;
}

abbrev prompts : Poll
prompts = record {
  buffered = false;
  events = TryRecv.lagged ∷ [];
  detected = some reason;
  turn_done = none;
  meanwhile = λ s. s;
}

abbrev quiet : Poll
quiet = record prompts { detected = none }

abbrev args : WatchArgs
args = record { session = []; task_id = some 1; detect = true; interactive = false }

-- others cancel the task during the first sleep
abbrev cancelled : Poll
cancelled = record prompts { meanwhile = λ s. record s { db = (cancel_active_task 60 1 s.db).0 } }

watch_inner-rests_example :
    let (w, end) =
      watch_inner args (prompts ∷ prompts ∷ []) (some (pos 0)) (watcher true none state) in
    (w.awaiting_input ≡ none)
    × Nowhere 1 TaskStatus.awaiting_input w.state
    × (args.interactive ≡ false → end ≡ WatchEnd.exited (some (pos 0)))
watch_inner-rests_example =
    watch_inner-rests args 1 (prompts ∷ prompts ∷ []) (some (pos 0)) (watcher true none state) refl

poll_once-Shows_example :
    let seen = quiet.detected ∷ history (prompts ∷ prompts ∷ []) [] in
    let w =
      poll_once args quiet
        (watch_polls args (prompts ∷ prompts ∷ []) (watcher false none state)).0 in
    (Waiting seen → Shows 1 (last_detected seen) w) × (¬ Waiting seen → Shows 1 none w)
poll_once-Shows_example =
    poll_once-Shows args 1 (prompts ∷ prompts ∷ []) quiet none state refl refl refl
