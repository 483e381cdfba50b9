-- ===== src/Transport/System.antt =====
-- The handle and the task of the connections together: the commands of the one are those that the
-- other takes, and they share the gate (src/transport/src/lib.rs).
mod Rounds
pub mod Tally
pub mod Fresh
pub mod Conserve
pub mod Kept
pub mod Connected
pub mod Asked
pub mod Account
pub mod Wire
pub mod Greet
pub mod Wired
pub mod Frames
pub mod Stale
pub mod Drain
mod Tests
use codex_warden.Prelude.{
  ℕ, zero, suc, String, Bool, true, false, not, ◌&&◌, Option, some, none, List, [], ◌∷◌,
  if◌then◌else◌,
}
use codex_warden.Protocol.Json.{Json}
use codex_warden.Transport.Drive.{
  Command, DriveExit, disconnected, commands_closed, Incoming, Input, command, message, tick,
  Connection, drive,
}
use codex_warden.Transport.Handshake.{TransportConfig, Handshake, Greeted, initialized, initialize}
use codex_warden.Transport.Reconnect.{reject_while_disconnected, start_link}
use codex_warden.Transport.Handle.{
  TransportHandle, Awaited, spawn, request_inner, notify_with, mark_reconciled,
}
use codex_warden.Transport.Handle

-- `handle.commands` are the commands not yet taken, the latest first, and its receiver is there while
-- the loop of the connections runs; `live` while a connection is driven.
pub record System (V : Type 0) : Type 0 where
  pub handle : TransportHandle V
  pub connection : Connection V
  pub live : Bool

-- What the callers of the handle do, and what the task meets: a command that it takes from the
-- channel, while a connection is driven with the error of its write or in the wait after a failure;
-- a message or a tick; a handshake of a new connection, with the time at which it is driven.
pub data Move (V : Type 0) : Type 0 where
  asks : (method : String) (params : V) (action : Bool) (awaited : Awaited V) → Move V
  notifies : (method : String) (params : V) → Move V
  marks : (acknowledged : Bool) → Move V
  shuts : Move V
  takes : (now : ℕ) (write_error : Option String) → Move V
  rejects : (detail : String) → Move V
  hears : (now : ℕ) → Incoming V → (unix : ℕ) (ingress : Bool) → Move V
  ticks : (now : ℕ) (ping_written : Bool) → Move V
  connects : Handshake V → (begun : ℕ) → Move V

module _ {ℓ} {A : Type ℓ} where
  -- `recv` on a channel kept with the latest first.
  unfoldable pub oldest : List A → Option (List A × A)
  oldest [] = none
  oldest (x ∷ xs) = elim (oldest xs) [ none ↦ some ([], x) | some (rest, y) ↦ some (x ∷ rest, y) ]

module _ {V : Type 0} where
  -- Both see the gate that the one, or the other, has written.
  abbrev pub told : TransportHandle V → System V → System V
  told h s = record s {
    handle = h;
    connection = record (s.connection) { reconcile_ready = h.reconcile_ready };
  }

  abbrev pub moved : Connection V → Bool → Bool → System V → System V
  moved c live open_ s = record {
    handle = record (s.handle) { reconcile_ready = c.reconcile_ready; is_open = open_ };
    connection = c;
    live = live;
  }

  -- The end of a connection: the loop goes on after a failure only. Where it does not, the commands
  -- left in the queue stay in it; the source drops the queue's receiver, and each caller gets Closed.
  unfoldable pub leave : DriveExit → Connection V → System V → System V
  leave (disconnected detail) c s =
      moved (record c { reconcile_ready = false }) false s.handle.is_open s
  leave (DriveExit.shutdown done) c s =
      moved (record c { acknowledged = done ∷ c.acknowledged }) false false s
  leave commands_closed c s = moved c false false s

  -- The wait after a failure: a shutdown ends the loop.
  unfoldable pub reject : String → System V → System V
  reject detail s = elim (oldest s.handle.commands) [
    | none ↦ s
    | some (rest, c) ↦
        let (c', breaks) = reject_while_disconnected (some c) detail s.connection in
        moved c' false (not breaks && s.handle.is_open)
          (record s { handle = record (s.handle) { commands = rest } })
  ]

module _ {V : Type 0} (j : Json V) (config : TransportConfig) (show_idle : ℕ → String) where
  -- A round of `drive`, with what follows if it is the last one.
  unfoldable pub react : ℕ → Input V → System V → System V
  unfolding leave
  react now i s =
      let (c, exit) = drive j config.read_idle_timeout show_idle ((now, i) ∷ []) s.connection in
      elim exit [ none ↦ moved c true s.handle.is_open s | some e ↦ leave e c s ]

  unfoldable pub take : ℕ → Option String → System V → System V
  unfolding react
  take now write_error s = elim (oldest s.handle.commands) [
    | none ↦ s
    | some (rest, c) ↦
        react now (command (some c) write_error)
          (record s { handle = record (s.handle) { commands = rest } })
  ]

  unfoldable pub connect : Handshake V → ℕ → System V → System V
  connect h begun s =
      let (c, greeted) = initialize j config h s.connection in
      elim greeted [
        | initialized ↦
            moved (record c { reconcile_ready = false; pending = []; last_read = begun }) true
              s.handle.is_open s
        | _ ↦ moved c false s.handle.is_open s
      ]

  -- A driven connection takes, hears and ticks; the loop rejects and connects without one.
  unfoldable pub step : Move V → System V → System V
  unfolding react take reject connect
  step (asks method params action awaited) s =
      told (request_inner method params action awaited s.handle).0 s
  step (notifies method params) s = told (notify_with method params s.handle).0 s
  step (marks acknowledged) s = told (mark_reconciled acknowledged s.handle).0 s
  step shuts s = told (Handle.shutdown s.handle) s
  step (takes now write_error) s = if s.live then take now write_error s else s
  step (hears now m unix ingress) s = if s.live then react now (message m unix ingress) s else s
  step (ticks now ping_written) s = if s.live then react now (tick ping_written) s else s
  step (rejects detail) s = if not s.live && s.handle.is_open then reject detail s else s
  step (connects h begun) s = if not s.live && s.handle.is_open then connect h begun s else s

  unfoldable pub steps : List (Move V) → System V → System V
  unfolding step
  steps [] s = s
  steps (m ∷ ms) s = steps ms (step m s)

  abbrev pub start : System V
  start = record {
    handle = spawn;
    connection = (start_link j config show_idle).connection;
    live = false;
  }
