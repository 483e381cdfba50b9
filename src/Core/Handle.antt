-- ===== src/Core/Handle.antt =====
-- The configuration, errors and handle of the whole (src/core/src/lib.rs). Of the handle's parts the
-- ones that its shutdown and the reconnect task use are kept; the ingestor's world holds the
-- reducer and the store that they share.
use codex_warden.Prelude.{ℕ, String, Bool, true, false, Option}
use codex_warden.Protocol.Json.{Json}
use codex_warden.Store.Events.{StoreConfig}
use codex_warden.Store.Events
use codex_warden.Control.Actions.{ControlConfig}
use codex_warden.Control.Actions
use codex_warden.Ingest.World.{IngestConfig, IngestError, World}
use codex_warden.Ingest.World as IngestWorld
use codex_warden.Ingest.Reconcile.{unsubscribe_all}
use codex_warden.Transport.Request.{RequestError}
use codex_warden.Transport.Handshake.{TransportConfig}
use codex_warden.Transport.Handshake
use codex_warden.Transport.Handle.{TransportHandle}
use codex_warden.Transport.Handle as Transport
use codex_warden.Supervisor.Ops.{SupervisorConfig, SupervisorError, SupervisionState}
use codex_warden.Supervisor.Ops

pub record Config : Type 0 where
  pub manage_gui : Bool
  pub transport : TransportConfig
  pub store : StoreConfig
  pub ingest : IngestConfig
  pub control : ControlConfig
  pub lifecycle_replay_capacity : ℕ
  pub lifecycle_broadcast_capacity : ℕ
  pub delta_broadcast_capacity : ℕ
  pub supervisor : SupervisorConfig

-- `Default`, of a home directory and the crate's version.
abbrev pub default_config : (home version : String) → Config
default_config home version = record {
  manage_gui = true;
  transport = record (Handshake.default_config home version) {
    socket_path = (Ops.default_config home).socket_path;
  };
  store = Events.default_config;
  ingest = IngestWorld.default_config;
  control = Actions.default_config;
  lifecycle_replay_capacity = 4096;
  lifecycle_broadcast_capacity = 1024;
  delta_broadcast_capacity = 2048;
  supervisor = Ops.default_config home;
}

pub data Error (V : Type 0) : Type 0 where
  supervisor : SupervisorError → Error V
  ingest : IngestError V → Error V
  ingress_already_taken : Error V
  transport : RequestError V → Error V

-- `shutdown_sent` is the value of the shutdown's channel.
pub record Handle (V : Type 0) : Type 0 where
  pub transport : TransportHandle V
  pub ingestor : World V
  pub shutdown_sent : Bool
  pub stopped : Bool
  pub supervision : Option SupervisionState

module _ {V : Type 0} (j : Json V) (config : Config) where
  -- `shutdown`, by whether the handle was stopped before, and what it comes to in the background
  -- when the guard is dropped.
  unfoldable pub shutdown_as : (stopped : Bool) → Handle V → Handle V
  shutdown_as true h = h
  shutdown_as false h = record h {
    stopped = true;
    shutdown_sent = true;
    ingestor = unsubscribe_all j config.ingest h.ingestor.states h.ingestor;
    transport = Transport.shutdown h.transport;
  }

  unfoldable pub shutdown : Handle V → Handle V
  unfolding shutdown_as
  shutdown h = shutdown_as h.stopped h
