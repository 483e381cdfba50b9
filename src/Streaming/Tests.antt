-- ===== src/Streaming/Tests.antt =====
-- Examples of the streams.
use mathlib.Core.List.{Mem}
use codex_warden.Prelude.{
  ℕ, suc, ◌+◌, ◌-◌, ◌<◌, ◌≤◌, ◌≡◌, ◌⊎◌, refl, arith, some, List, [], ◌∷◌, ◌++◌, false, filter,
  first, ltb, ltb_iff, drop, length, length-append, if◌then◌else◌,
}
use codex_warden.Protocol.Event.{SequencedEvent}
use codex_warden.Reducer.Apply.{Reducer, new, run, events_since}
use codex_warden.Reducer.Replay.{lifecycle_of, latest, Increasing, Words}
use codex_warden.Streaming.Hub.{
  Received, value, lagged, LifecycleItem, LifecycleStream, replay, gap, recv, pull,
}
use codex_warden.Streaming.Recovery.{recv_lagged, highest}
use codex_warden.Streaming.Repeats.{IsBroadcast, recv_repeats}
use codex_warden.Samples.{json, Value, started, spoken, completed}

abbrev fresh : Reducer Value
fresh = record {
  state = record { snapshot = record { at_sequence = 0; threads = [] }; subscribing = [] };
  lifecycle = [];
  lifecycle_capacity = 2;
  waiters = [];
  channels = 0;
}

abbrev day : List (SequencedEvent Value)
day = started ∷ spoken ∷ completed ∷ []

day-Increasing : Increasing 0 day
day-Increasing = (omega arith, (omega arith, (omega arith, tt)))

day-Words : Words day
day-Words = (omega arith, (omega arith, (omega arith, tt)))

recv_lagged_example :
    let missed = filter (λ e. ltb 0 e.sequence) (lifecycle_of day) in
    let after = run json day fresh in
    (recv after 0 (lagged 1) ≡ (replay missed, highest 0 missed))
    ⊎ ((oldest : SequencedEvent Value) × (first (latest 2 (lifecycle_of day)) ≡ some oldest)
        × (0 + 1 < oldest.sequence)
        × (recv after 0 (lagged 1)
            ≡ (gap after.state.snapshot (some oldest.sequence), after.state.snapshot.at_sequence)))
unfolding new
recv_lagged_example = recv_lagged json day 2 0 1 fresh refl day-Increasing day-Words

-- A channel that holds the last two events.
abbrev at_place : List (SequencedEvent Value) → Received Value
at_place [] = Received.closed
at_place (e ∷ _) = value e

abbrev pair : List (SequencedEvent Value) → ℕ → Received Value × ℕ
pair topic place =
    if ltb place (length topic - 2)
    then (lagged (length topic - 2 - place), length topic - 2)
    else (at_place (drop place topic), suc place)

drop-front :
    (before after : List (SequencedEvent Value)) → drop (length before) (before ++ after) ≡ after
drop-front [] after = refl
drop-front (e ∷ before) after = drop-front before after

pair-IsBroadcast : IsBroadcast 2 pair
pair-IsBroadcast = record {
  lags = λ gone held place full behind.
      let size : length (gone ++ held) - 2 ≡ length gone =
        omega (arith, full, length-append gone held) in
      rw (size, (ltb_iff place (length gone)).1 behind) refl;
  gives = λ before after e fits.
      let size : ltb (length before) (length (before ++ e ∷ after) - 2) ≡ false =
        ground (arith, fits, length-append before (e ∷ after)) in
      rw (size, drop-front before (e ∷ after)) refl;
}

-- A history of three lifecycle events, and a consumer that has received none.
abbrev later : SequencedEvent Value
later = record completed { sequence = 7 }

abbrev history : List (SequencedEvent Value)
history = started ∷ spoken ∷ completed ∷ later ∷ []

abbrev roomy : Reducer Value
roomy = record fresh { lifecycle_capacity = 3 }

abbrev behind : LifecycleStream
behind = record { receiver = 0; cursor = 0 }

recv_repeats_example :
    let caught_up = (pull pair (run json history roomy) (lifecycle_of history) behind).1 in
    let (item, last) = pull pair (run json history roomy) (lifecycle_of history) caught_up in
    Mem completed (started ∷ completed ∷ later ∷ [])
    × (item ≡ LifecycleItem.event completed)
    × (last.cursor ≡ completed.sequence)
    × (last.cursor + 1 ≤ caught_up.cursor)
unfolding new recv events_since run pull
recv_repeats_example =
    recv_repeats json 2 pair pair-IsBroadcast history (started ∷ []) (later ∷ []) completed 3 roomy
      behind (started ∷ completed ∷ later ∷ []) refl
      (omega arith, (omega arith, (omega arith, (omega arith, tt))))
      (omega arith, (omega arith, (omega arith, (omega arith, tt)))) refl refl (omega arith)
      (omega arith) refl
