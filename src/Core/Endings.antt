-- ===== src/Core/Endings.antt =====
-- How `CodexControl::run` ends, on every path (src/core/src/lib.rs).
use codex_warden.Prelude.{ℕ, ◌<◌, ◌&&◌, Bool, true, false, Option, some, none, List, ◌≡◌, ◌⊎◌}
use codex_warden.Protocol.Json.{Json}
use codex_warden.Protocol.Event.{SequencedEvent}
use codex_warden.Ingest.World.{World}
use codex_warden.Supervisor.Ops.{
  ProcessOps, Session, done, raised, SupervisionState, SupervisorError,
}
use codex_warden.Reducer.Apply.{Reducer}
use codex_warden.Core.Handle.{Config, supervisor, Handle}
use codex_warden.Core.Run.{Happening, Exit, failed, panicked, supervise}
use codex_warden.Core.Operation.{Ending}

module _ {V : Type 0} (j : Json V) (config : Config) (encoded_len : SequencedEvent V → ℕ) where
  module _ (makes : ℕ → Bool) where
    -- The reducer's capacity is zero, or `tokio` does not make the hub's channels.
    abbrev pub Refuses : Type 0
    Refuses =
        (config.lifecycle_replay_capacity ≡ 0)
        ⊎ ((makes config.lifecycle_broadcast_capacity && makes config.delta_broadcast_capacity)
            ≡ false)

    -- Neither: the reducer and the hub are made.
    abbrev pub Accepts : Type 0
    Accepts =
        (0 < config.lifecycle_replay_capacity)
        × (makes config.lifecycle_broadcast_capacity ≡ true)
        × (makes config.delta_broadcast_capacity ≡ true)

    module _ (w : World V) (acknowledged : Bool) (operation : List (Happening V)) where
      -- Each end of `run` once the supervision is done, with the panics.
      abbrev pub Beginning : Option SupervisionState → Exit V × Option (Handle V) → Type 0
      Beginning sup ending =
          (Refuses × (ending ≡ (panicked, none)))
          ⊎ (Accepts × Ending j config encoded_len w acknowledged operation sup ending)

  module _ {W : Type 0} (ops : ProcessOps W) where
    -- What the supervision was for `run` to go on with it.
    abbrev pub Supervised : Option SupervisionState → Session W → Type 0
    Supervised none s = config.manage_gui ≡ false
    Supervised (some state) s =
        (config.manage_gui ≡ true) × (supervise j config encoded_len ops s ≡ done state)

    -- The supervision is wanted and raises, and there is no transport; or `run` goes on after it.
    abbrev pub RunEnding :
        (ℕ → Bool)
        → Session W
        → World V
        → Bool
        → List (Happening V)
        → Exit V × Option (Handle V)
        → Type 0
    RunEnding makes s w acknowledged operation ending =
        ((config.manage_gui ≡ true)
          × ((e : SupervisorError) × (supervise j config encoded_len ops s ≡ raised e)
              × (ending ≡ (failed (supervisor e), none))))
        ⊎ ((sup : Option SupervisionState) × Supervised sup s
            × Beginning makes w acknowledged operation sup ending)
