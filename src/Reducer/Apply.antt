-- ===== src/Reducer/Apply.antt =====
-- The reducer as a whole: `Reducer::new`, `apply`, `register_waiter` and `events_since`
-- (src/reducer/src/lib.rs).
use codex_warden.Prelude.{
  ℕ, zero, suc, ◌+◌, Bool, Option, some, none, List, [], ◌∷◌, ◌++◌, ltb, first, filter, length,
  map_option, is_some_and, if◌then◌else◌, sat_add64,
}
use codex_warden.Protocol.Json.{Json}
use codex_warden.Protocol.Frame.{is_lifecycle}
use codex_warden.Protocol.Event.{SequencedEvent}
use codex_warden.Reducer.State.{ReducerState, Snapshot, apply_state}
use codex_warden.Reducer.Waiters.{Waiter, wake}

pub data ReplayResult (V : Type 0) : Type 0 where
  events : List (SequencedEvent V) → ReplayResult V
  gap_too_old :
      (requested_after : ℕ) (oldest_available : Option ℕ) (snapshot : Snapshot V) → ReplayResult V

-- `channels` numbers the `oneshot` channels.
pub record Reducer (V : Type 0) : Type 0 where
  pub state : ReducerState V
  pub lifecycle : List (SequencedEvent V)
  pub lifecycle_capacity : ℕ
  pub waiters : List (Waiter V)
  pub channels : ℕ

module _ {V : Type 0} where
  -- `Reducer::new`; `none` is the failed assertion.
  unfoldable pub new : ℕ → Option (Reducer V)
  new zero = none
  new (suc n) = some (record {
    state = record { snapshot = record { at_sequence = 0; threads = [] }; subscribing = [] };
    lifecycle = [];
    lifecycle_capacity = suc n;
    waiters = [];
    channels = 0;
  })

  -- `while lifecycle.len() > capacity { pop_front }`, on the events that are over.
  unfoldable pub trim_log : ℕ → List (SequencedEvent V) → List (SequencedEvent V)
  trim_log capacity [] = []
  trim_log capacity (e ∷ log) =
      let rest = trim_log capacity log in if ltb capacity (length (e ∷ log)) then rest else e ∷ log

  -- The part of `apply` under the log's lock.
  unfoldable pub apply_log :
      SequencedEvent V → ℕ → List (SequencedEvent V) → List (SequencedEvent V)
  unfolding trim_log
  apply_log event capacity log =
      if is_lifecycle event.plane then trim_log capacity (log ++ event ∷ []) else log

  unfoldable pub register_waiter : (SequencedEvent V → Bool) → Reducer V → Reducer V × ℕ
  register_waiter predicate r = (
    record r {
      waiters = r.waiters ++ record { predicate = predicate; sender = r.channels } ∷ [];
      channels = r.channels + 1;
    },
    r.channels,
  )

  abbrev pub current_sequence : Reducer V → ℕ
  current_sequence r = r.state.snapshot.at_sequence

  unfoldable pub events_since : ℕ → Reducer V → ReplayResult V
  events_since sequence r =
      let oldest = map_option (λ (e : SequencedEvent V). e.sequence) (first r.lifecycle) in
      if is_some_and oldest (ltb (sat_add64 sequence 1))
      then gap_too_old sequence oldest r.state.snapshot
      else events (filter (λ e. ltb sequence e.sequence) r.lifecycle)

module _ {V : Type 0} (j : Json V) where
  -- `apply`, with what it sends to the waiters.
  unfoldable pub apply : SequencedEvent V → Reducer V → Reducer V × List (ℕ × SequencedEvent V)
  unfolding apply_state apply_log wake
  apply event r =
      let (waiters, sent) = wake event r.waiters in
      (
        record r {
          state = apply_state j event r.state;
          lifecycle = apply_log event r.lifecycle_capacity r.lifecycle;
          waiters = waiters;
        },
        sent,
      )

  -- A history of applied events.
  unfoldable pub run : List (SequencedEvent V) → Reducer V → Reducer V
  unfolding apply
  run [] r = r
  run (e ∷ es) r = run es (apply e r).0
