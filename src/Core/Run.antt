-- ===== src/Core/Run.antt =====
-- `CodexControl::run` and the tasks beside its operation (src/core/src/lib.rs). The operation is
-- the list of what it and the tasks do, one after another.
use codex_warden.Prelude.{
  ℕ, String, Bool, true, false, not, ◌&&◌, Option, some, none, List, [], ◌∷◌, Result, ok, err,
  if◌then◌else◌,
}
use codex_warden.Protocol.Json.{Json}
use codex_warden.Protocol.Event.{SequencedEvent}
use codex_warden.Ingest.World.{World, Meddling, meddle, IngestError, DiscoveryOutcome}
use codex_warden.Ingest.Reconcile.{reconcile}
use codex_warden.Transport.Request.{closed}
use codex_warden.Transport.Drive.{ConnectionPhase, reconciling}
use codex_warden.Transport.Handle.{
  TransportHandle, Awaited, spawn, take_ingress, request_action, mark_reconciled,
}
use codex_warden.Transport.Handle as Transport
use codex_warden.Supervisor.Ops.{
  ProcessOps, Session, Outcome, done, raised, stalled, SupervisionState,
}
use codex_warden.Supervisor.Supervise as Supervise
use codex_warden.Reducer.Apply.{Reducer, new}
use codex_warden.Streaming.Hub.{EventHub, new_hub}
use codex_warden.Core.Handle.{
  Config, Error, supervisor, ingest, ingress_already_taken, transport, Handle, shutdown,
}

-- What the operation and the tasks do: an action's request, what ingress and the signals' tasks do
-- to the ingestor's world, a write of the gate by the connection's task, a change of health that
-- the reconnect task sees, with whether a mark would be acknowledged, the end of the connection's task, and a shutdown.
pub data Happening (V : Type 0) : Type 0 where
  acts : (method : String) (params : V) (awaited : Awaited V) → Happening V
  meddles : List (Meddling V) → Happening V
  gates : (ready : Bool) → Happening V
  health_changed : (phase : ConnectionPhase) (acknowledged : Bool) → Happening V
  connection_ends : Happening V
  shuts_down : Happening V

-- How `run` ends; `panicked` when the reducer or the hub is not made, `endless` when a wait or a
-- reconciliation does not return.
pub data Exit (V : Type 0) : Type 0 where
  finished : Exit V
  failed : Error V → Exit V
  panicked : Exit V
  endless : Exit V

abbrev pub is_reconciling : ConnectionPhase → Bool
is_reconciling reconciling = true
is_reconciling _ = false

module _ {V : Type 0} (j : Json V) (config : Config) (encoded_len : SequencedEvent V → ℕ) where
  abbrev pub scan :
      World V → Option (World V × Result (List (String × DiscoveryOutcome)) (IngestError V))
  scan w = reconcile j config.ingest encoded_len config.store w

  -- The reconnect task at a change of health.
  unfoldable pub reconnect : ConnectionPhase → (acknowledged : Bool) → Handle V → Option (Handle V)
  reconnect phase acknowledged h = elim (is_reconciling phase && not h.transport.reconcile_ready) [
    | false ↦ some h
    | true ↦ elim (scan h.ingestor) [
      | none ↦ none
      | some (w, err _) ↦ some (record h { ingestor = w })
      | some (w, ok _) ↦
          some (record h { ingestor = w; transport = (mark_reconciled acknowledged h.transport).0 })
    ]
  ]

  unfoldable pub happen : Happening V → Handle V → Option (Handle V)
  unfolding reconnect
  happen (acts method params awaited) h =
      some (record h { transport = (request_action method params awaited h.transport).0 })
  happen (meddles ms) h = some (record h { ingestor = meddle j ms h.ingestor })
  happen (gates ready) h =
      some (record h { transport = record (h.transport) { reconcile_ready = ready } })
  happen (health_changed phase acknowledged) h = reconnect phase acknowledged h
  happen connection_ends h =
      some (record h { transport = record (h.transport) { is_open = false } })
  happen shuts_down h = some (shutdown j config h)

  unfoldable pub live : List (Happening V) → Handle V → Option (Handle V)
  unfolding happen
  live [] h = some h
  live (x ∷ rest) h = elim (happen x h) [ none ↦ none | some h' ↦ live rest h' ]

  -- The operation with the handle, and the shutdown after it.
  unfoldable pub operate : List (Happening V) → Handle V → Exit V × Option (Handle V)
  unfolding live
  operate operation h = elim (live operation h) [
    | none ↦ (endless, some h)
    | some h' ↦ (finished, some (shutdown j config h'))
  ]

  -- From the first reconciliation on.
  unfoldable pub open_gate :
      (acknowledged : Bool) → List (Happening V) → Handle V → Exit V × Option (Handle V)
  unfolding operate
  open_gate acknowledged operation h = elim (scan h.ingestor) [
    | none ↦ (endless, some h)
    | some (w, err e) ↦ (
      failed (ingest e),
      some (record h { ingestor = w; transport = Transport.shutdown h.transport }),
    )
    | some (w, ok _) ↦
        let (t, opened) = mark_reconciled acknowledged h.transport in
        let h' : Handle V = record h { ingestor = w; transport = t } in
        elim opened [ false ↦ (failed (transport closed), some h') | true ↦ operate operation h' ]
  ]

  module _ (makes : ℕ → Bool) where
    -- From the transport on, over the ingestor's new world. `makes` tells whether `tokio` makes a
    -- broadcast channel of a capacity. The reducer and the hub are new; what ingress does to them is
    -- among the happenings.
    unfoldable pub begin :
        World V
        → (acknowledged : Bool) → List (Happening V)
        → Option SupervisionState
        → Exit V × Option (Handle V)
    unfolding open_gate new new_hub
    begin w acknowledged operation supervision =
        let (t, given) = take_ingress spawn in
        let handle : Handle V = record {
          transport = t;
          ingestor = w;
          shutdown_sent = false;
          stopped = false;
          supervision = supervision;
        } in
        let reducer : Option (Reducer V) = new config.lifecycle_replay_capacity in
        let hub : Option (EventHub V) =
          new_hub makes config.lifecycle_broadcast_capacity config.delta_broadcast_capacity in
        elim given [
          | false ↦ (failed ingress_already_taken, none)
          | true ↦ elim reducer [
            | none ↦ (panicked, none)
            | some _ ↦ elim hub [
              | none ↦ (panicked, none)
              | some _ ↦ open_gate acknowledged operation handle
            ]
          ]
        ]

    -- The first step's outcome, and what follows.
    unfoldable pub begin_managed :
        Outcome SupervisionState
        → World V
        → (acknowledged : Bool) → List (Happening V)
        → Exit V × Option (Handle V)
    unfolding begin
    begin_managed (raised e) w acknowledged operation = (failed (supervisor e), none)
    begin_managed stalled w acknowledged operation = (endless, none)
    begin_managed (done state) w acknowledged operation =
        begin w acknowledged operation (some state)

  module _ {W : Type 0} (ops : ProcessOps W) where
    abbrev pub supervise : Session W → Outcome SupervisionState
    supervise s = (Supervise.initialize ops config.supervisor s).0

    unfoldable pub run :
        (makes : ℕ → Bool)
        → Session W
        → World V
        → (acknowledged : Bool) → List (Happening V)
        → Exit V × Option (Handle V)
    unfolding begin begin_managed
    run makes s w acknowledged operation =
        if config.manage_gui
        then begin_managed makes (supervise s) w acknowledged operation
        else begin makes w acknowledged operation none
