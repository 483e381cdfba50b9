-- ===== src/Streaming/Hub.antt =====
-- `EventHub`, `LifecycleStream` and `DeltaStream` (src/streaming/src/lib.rs).
use codex_warden.Prelude.{
  ℕ, Bool, ◌&&◌, if◌then◌else◌, Option, some, none, List, [], ◌∷◌, ◌++◌, add64, last, length,
  unwrap_or, map_option,
}
use codex_warden.Protocol.Frame
use codex_warden.Protocol.Event.{SequencedEvent}
use codex_warden.Reducer.State.{Snapshot}
use codex_warden.Reducer.Apply.{Reducer, ReplayResult, events, gap_too_old, events_since}

-- What has been sent on each topic, oldest first.
pub record EventHub (V : Type 0) : Type 0 where
  pub lifecycle_topic : List (SequencedEvent V)
  pub delta_topic : List (SequencedEvent V)

-- Of a receiver, the place in its topic from which it is to receive.
pub record LifecycleStream : Type 0 where
  pub receiver : ℕ
  pub cursor : ℕ

pub record DeltaStream : Type 0 where
  pub receiver : ℕ
  pub dropped : ℕ

-- What `broadcast::Receiver::recv` returns.
pub data Received (V : Type 0) : Type 0 where
  value : SequencedEvent V → Received V
  lagged : ℕ → Received V
  closed : Received V

pub data LifecycleItem (V : Type 0) : Type 0 where
  event : SequencedEvent V → LifecycleItem V
  replay : List (SequencedEvent V) → LifecycleItem V
  gap : (snapshot : Snapshot V) (oldest_available : Option ℕ) → LifecycleItem V
  closed : LifecycleItem V

-- What `DeltaStream::recv` comes to; `pending` when it still waits.
pub data DeltaItem (V : Type 0) : Type 0 where
  event : SequencedEvent V → DeltaItem V
  ended : DeltaItem V
  pending : DeltaItem V

module _ {V : Type 0} where
  -- `EventHub::new`; `none` is a panic. Whether `tokio` makes a channel of a capacity, and does not
  -- panic, is a parameter.
  unfoldable pub new_hub : (makes : ℕ → Bool) → (lifecycle delta : ℕ) → Option (EventHub V)
  new_hub makes lifecycle delta =
      if makes lifecycle && makes delta
      then some (record { lifecycle_topic = []; delta_topic = [] })
      else none

  unfoldable pub publish : SequencedEvent V → EventHub V → EventHub V
  publish e hub = elim e.plane [
    | Frame.lifecycle ↦ record hub { lifecycle_topic = hub.lifecycle_topic ++ e ∷ [] }
    | Frame.delta ↦ record hub { delta_topic = hub.delta_topic ++ e ∷ [] }
  ]

  -- `subscribe` gives a receiver of what is sent from then on.
  unfoldable pub lifecycle : ℕ → EventHub V → LifecycleStream
  lifecycle after hub = record { receiver = length hub.lifecycle_topic; cursor = after }

  unfoldable pub deltas : EventHub V → DeltaStream
  deltas hub = record { receiver = length hub.delta_topic; dropped = 0 }

  -- The new cursor and the item, where the consumer has lagged.
  unfoldable pub recover : ℕ → ReplayResult V → LifecycleItem V × ℕ
  recover cursor (events es) =
      (replay es, unwrap_or (map_option (λ (e : SequencedEvent V). e.sequence) (last es)) cursor)
  recover cursor (gap_too_old _ oldest snapshot) = (gap snapshot oldest, snapshot.at_sequence)

  -- `LifecycleStream::recv`: the item and the stream's new cursor.
  unfoldable pub recv : Reducer V → ℕ → Received V → LifecycleItem V × ℕ
  unfolding recover
  recv reducer cursor (value e) = (event e, e.sequence)
  recv reducer cursor (lagged _) = recover cursor (events_since cursor reducer)
  recv reducer cursor Received.closed = (LifecycleItem.closed, cursor)

  -- One call of `LifecycleStream::recv` on the stream. The `tokio` channel is a parameter: what a
  -- receiver at a place gets of what has been sent on the topic, and its new place.
  unfoldable pub pull :
      (List (SequencedEvent V) → ℕ → Received V × ℕ)
      → Reducer V
      → List (SequencedEvent V)
      → LifecycleStream
      → LifecycleItem V × LifecycleStream
  unfolding recv
  pull channel reducer topic stream =
      let (received, place) = channel topic stream.receiver in
      let (item, after) = recv reducer stream.cursor received in
      (item, record { receiver = place; cursor = after })

  -- `DeltaStream::recv` over what the channel returns, with the count of dropped events.
  unfoldable pub recv_delta : ℕ → List (Received V) → DeltaItem V × ℕ
  recv_delta dropped [] = (pending, dropped)
  recv_delta dropped (value e ∷ rest) = (DeltaItem.event e, dropped)
  recv_delta dropped (lagged count ∷ rest) = recv_delta (add64 dropped count) rest
  recv_delta dropped (Received.closed ∷ rest) = (ended, dropped)
