-- ===== src/Core/Service.antt =====
-- What a consumer asks of `Handle` (src/core/src/lib.rs): its calls of the parts.
use codex_warden.Prelude.{ℕ, String, Option, List}
use codex_warden.Protocol.Json.{Json}
use codex_warden.Protocol.Event.{SequencedEvent}
use codex_warden.Reducer.State.{Snapshot}
use codex_warden.Reducer.Apply.{ReplayResult}
use codex_warden.Reducer.Apply
use codex_warden.Store.Events.{Inner}
use codex_warden.Store.Query.{QueryResult}
use codex_warden.Store.Query
use codex_warden.Streaming.Hub.{EventHub, LifecycleStream, DeltaStream}
use codex_warden.Streaming.Hub
use codex_warden.Control.Actions.{ActionOutcome, Session}
use codex_warden.Control.Actions
use codex_warden.Ingest.World.{SubscriptionState}
use codex_warden.Supervisor.Ops.{SupervisionState}
use codex_warden.Transport.Drive.{Health}
use codex_warden.Core.Handle.{Config, Handle}

-- A handle with the parts that it shares with the tasks. The reducer is the one of the controller's
-- session, and `health` is the transport's latest.
pub record Service (V : Type 0) : Type 0 where
  pub handle : Handle V
  pub hub : EventHub V
  pub store : Inner V
  pub controller : Session V
  pub health : Health

module _ {V : Type 0} where
  abbrev pub lifecycle : ℕ → Service V → LifecycleStream
  lifecycle after s = Hub.lifecycle after s.hub

  abbrev pub deltas : Service V → DeltaStream
  deltas s = Hub.deltas s.hub

  unfoldable pub events_since : ℕ → Service V → ReplayResult V
  events_since after s = Apply.events_since after s.controller.reducer

  abbrev pub snapshot : Service V → Snapshot V
  snapshot s = s.controller.reducer.state.snapshot

  unfoldable pub query_sequence : Option String → ℕ → Option ℕ → Service V → QueryResult V
  query_sequence thread_id after through s = Query.query_sequence thread_id after through s.store

  abbrev pub supervision : Service V → Option SupervisionState
  supervision s = s.handle.supervision

  abbrev pub subscription_states : Service V → List (String × SubscriptionState)
  subscription_states s = s.handle.ingestor.states

module _ {V : Type 0} (j : Json V) (config : Config) where
  unfoldable pub query_time : Option String → ℕ → ℕ → Service V → QueryResult V
  query_time thread_id start end s = Query.query_time config.store thread_id start end s.store

  -- The actions, with the events of their correlation window.
  unfoldable pub interrupt :
      String → String → List (SequencedEvent V) → Service V → Service V × ActionOutcome V
  interrupt thread_id turn_id window s =
      let (c, outcome) = Actions.interrupt j config.control thread_id turn_id window s.controller in
      (record s { controller = c }, outcome)

  unfoldable pub steer : String → String → List V → Service V → Service V × ActionOutcome V
  steer thread_id expected_turn_id input s =
      let (c, outcome) =
        Actions.steer j config.control thread_id expected_turn_id input s.controller in
      (record s { controller = c }, outcome)

  unfoldable pub start :
      String → List V → List (SequencedEvent V) → Service V → Service V × ActionOutcome V
  start thread_id input window s =
      let (c, outcome) = Actions.start j config.control thread_id input window s.controller in
      (record s { controller = c }, outcome)
