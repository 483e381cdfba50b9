-- ===== src/Transport/Handle.antt =====
-- `TransportHandle` (src/transport/src/lib.rs). What the connection's task does with a command is
-- given as an argument.
use codex_warden.Prelude.{
  ℕ, ◌+◌, add64, String, Bool, true, false, not, ◌&&◌, List, [], ◌∷◌, err, if◌then◌else◌,
}
use codex_warden.Protocol.Json.{number}
use codex_warden.Transport.Request.{not_written, timed_out, closed, Reply}
use codex_warden.Transport.Drive.{Command, notify, reconciled}

-- The commands sent are the latest first; `is_open` while the receiver is there. The gate is shared
-- with the connection's task. A `oneshot` channel is a number. `ingress` while the receiver of the
-- events has not been taken.
pub record TransportHandle (V : Type 0) : Type 0 where
  pub ingress : Bool
  pub commands : List (Command V)
  pub is_open : Bool
  pub next_id : ℕ
  pub channels : ℕ
  pub reconcile_ready : Bool

-- What the wait for a response comes to: the response, a sender that is gone, or the timeout.
pub data Awaited (V : Type 0) : Type 0 where
  answered : Reply V → Awaited V
  dropped : Awaited V
  late : Awaited V

module _ {V : Type 0} where
  abbrev pub spawn : TransportHandle V
  spawn = record {
    ingress = true;
    commands = [];
    is_open = true;
    next_id = 1;
    channels = 0;
    reconcile_ready = false;
  }

  -- Whether it gave the receiver.
  abbrev pub take_ingress : TransportHandle V → TransportHandle V × Bool
  take_ingress h = (record h { ingress = false }, h.ingress)

  -- `commands.send(…)`.
  abbrev pub send : Command V → TransportHandle V → TransportHandle V
  send command h = record h { commands = if h.is_open then command ∷ h.commands else h.commands }

  unfoldable pub await_response : String → Awaited V → Reply V
  await_response method (answered reply) = reply
  await_response method dropped = err closed
  await_response method late = err (timed_out method)

  unfoldable pub request_inner :
      String → V → (action : Bool) → Awaited V → TransportHandle V → TransportHandle V × Reply V
  unfolding await_response
  request_inner method params action awaited h =
      let sent : TransportHandle V =
        send (Command.request (number h.next_id) method params h.channels)
          (record h { next_id = add64 h.next_id 1; channels = h.channels + 1 }) in
      if action && not h.reconcile_ready
      then (h, err (not_written "reconciliation gate is closed"))
      else (sent, if h.is_open then await_response method awaited else err closed)

  -- `request`, `request_action` and `notify` of `RpcClient`.
  abbrev pub request : String → V → Awaited V → TransportHandle V → TransportHandle V × Reply V
  request method params awaited h = request_inner method params false awaited h

  abbrev pub request_action :
      String → V → Awaited V → TransportHandle V → TransportHandle V × Reply V
  request_action method params awaited h = request_inner method params true awaited h

  -- Whether it could be sent.
  unfoldable pub notify_with : String → V → TransportHandle V → TransportHandle V × Bool
  notify_with method params h = (send (notify method params) h, h.is_open)

  -- Whether the connection's task has acknowledged it.
  unfoldable pub mark_reconciled :
      (acknowledged : Bool) → TransportHandle V → TransportHandle V × Bool
  mark_reconciled acknowledged h =
      let opened : TransportHandle V = record h { reconcile_ready = true } in
      if h.is_open
      then (
        record (send (reconciled h.channels) opened) { channels = h.channels + 1 },
        acknowledged,
      )
      else (record opened { reconcile_ready = false }, false)

  unfoldable pub shutdown : TransportHandle V → TransportHandle V
  shutdown h = record (send (Command.shutdown h.channels) h) { channels = h.channels + 1 }
