-- ===== src/Transport/Reconnect.antt =====
-- `connection_loop` and `reject_while_disconnected` (src/transport/src/lib.rs). A list of attempts
-- gives what each connection meets.
use codex_warden.Prelude.{
  ℕ, ◌*◌, add64, min, unwrap_or, String, Bool, true, false, Option, some, none, List, [], ◌∷◌, err,
}
use codex_warden.Protocol.Json.{Json}
use codex_warden.Transport.Request.{not_written}
use codex_warden.Transport.Drive.{
  ConnectionPhase, connecting, handshaking, reconciling, degraded, stopped, Command, notify,
  reconciled, DriveExit, disconnected, commands_closed, Input, Connection, drive,
}
use codex_warden.Transport.Handshake.{
  TransportConfig, Handshake, initialize, initialized, refused, waiting,
}

-- One round of the loop: the last write of the gate by another task before it, the error of
-- `connect`, the handshake, the time at which `drive` begins and what it meets, and what the wait
-- after a failure yields, a command (none when their channel is closed) or the end of the sleep.
pub record Attempt (V : Type 0) : Type 0 where
  pub gate : Option Bool
  pub connect_error : Option String
  pub handshake : Handshake V
  pub begun : ℕ
  pub traffic : List (ℕ × Input V)
  pub idle : Option (Option (Command V))

-- The variables of the loop.
pub record Link (V : Type 0) : Type 0 where
  pub attempts : ℕ
  pub backoff : ℕ
  pub connection : Connection V

-- What a round comes to: the next round, the end of the loop, or that it still runs.
pub data Turn : Type 0 where
  next ended running : Turn

module _ {V : Type 0} where
  -- `health.send(…)`.
  abbrev pub announce : ConnectionPhase → Option String → Link V → Link V
  announce phase detail l = record l {
    connection = record (l.connection) {
      health = record {
        phase = phase;
        reconnect_attempts = l.attempts;
        last_frame_sequence = l.connection.sequence;
        detail = detail;
      };
    };
  }

  -- The failure of an attempt or the end of a connection, counted and announced.
  unfoldable pub degrade : String → Link V → Link V
  degrade detail l = announce degraded (some detail) (record l { attempts = add64 l.attempts 1 })

  unfoldable pub reject_while_disconnected :
      Option (Command V) → String → Connection V → Connection V × Bool
  reject_while_disconnected none detail c = (c, true)
  reject_while_disconnected (some (Command.request id m params response)) detail c =
      (record c { answers = (response, err (not_written detail)) ∷ c.answers }, false)
  reject_while_disconnected (some (Command.shutdown done)) detail c =
      (record c { acknowledged = done ∷ c.acknowledged }, true)
  reject_while_disconnected (some (notify m params)) detail c = (c, false)
  reject_while_disconnected (some (reconciled done)) detail c =
      (record c { acknowledged = done ∷ c.acknowledged }, false)

  -- The `select!` after a failure, and the longer backoff.
  unfoldable pub pause :
      TransportConfig → Option (Option (Command V)) → String → Link V → Link V × Turn
  unfolding reject_while_disconnected
  pause config idle detail l =
      let longer : Link V = record l { backoff = min (l.backoff * 2) config.retry_max } in
      elim idle [
        | none ↦ (longer, next)
        | some command ↦
            let (c, breaks) = reject_while_disconnected command detail l.connection in
            elim breaks [
              | true ↦ (record l { connection = c }, ended)
              | false ↦ (record longer { connection = c }, next)
            ]
      ]

module _ {V : Type 0} (j : Json V) (config : TransportConfig) (show_idle : ℕ → String) where
  -- The loop's part from `drive` on, once the handshake is done.
  unfoldable pub serve : Attempt V → Link V → Link V × Turn
  unfolding degrade
  serve a l =
      let fresh = announce reconciling none (record l {
        backoff = config.retry_initial;
        connection = record (l.connection) {
          reconcile_ready = false;
          pending = [];
          last_read = a.begun;
        };
      }) in
      let (c, exit) = drive j config.read_idle_timeout show_idle a.traffic fresh.connection in
      let driven : Link V = record fresh { connection = c } in
      elim exit [
        | none ↦ (driven, running)
        | some e ↦ elim e [
          | DriveExit.shutdown done ↦
              let l' = announce stopped none driven in
              (
                record l' {
                  connection = record (l'.connection) {
                    acknowledged = done ∷ l'.connection.acknowledged;
                  };
                },
                ended,
              )
          | disconnected detail ↦ (
            degrade detail (record driven { connection = record c { reconcile_ready = false } }),
            next,
          )
          | commands_closed ↦ (driven, ended)
        ]
      ]

  -- One round of the loop.
  unfoldable pub connect_once : Attempt V → Link V → Link V × Turn
  unfolding serve pause degrade
  connect_once a l =
      let start = announce connecting none (record l {
        connection = record (l.connection) {
          reconcile_ready = unwrap_or a.gate l.connection.reconcile_ready;
        };
      }) in
      elim a.connect_error [
        | some detail ↦ pause config a.idle detail (degrade detail start)
        | none ↦
            let shaking = announce handshaking none start in
            let (c, greeted) = initialize j config a.handshake shaking.connection in
            let met : Link V = record shaking { connection = c } in
            elim greeted [
              | waiting ↦ (met, running)
              | refused detail ↦ pause config a.idle detail (degrade detail met)
              | initialized ↦ serve a met
            ]
      ]

  unfoldable pub connection_loop : List (Attempt V) → Link V → Link V × Turn
  unfolding connect_once
  connection_loop [] l = (l, running)
  connection_loop (a ∷ later) l =
      let (l', turn) = connect_once a l in
      let rest = connection_loop later l' in
      elim turn [ next ↦ rest | ended ↦ (l', ended) | running ↦ (l', running) ]

  -- Before the first round.
  abbrev pub start_link : Link V
  start_link = record {
    attempts = 0;
    backoff = config.retry_initial;
    connection = record {
      pending = [];
      last_read = 0;
      sequence = 0;
      reconcile_ready = false;
      health = record {
        phase = connecting;
        reconnect_attempts = 0;
        last_frame_sequence = 0;
        detail = none;
      };
      frames = [];
      answers = [];
      acknowledged = [];
      events = [];
    };
  }
