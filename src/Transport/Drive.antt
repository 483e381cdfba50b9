-- ===== src/Transport/Drive.antt =====
-- One connection (`drive` and the types around it in src/transport/src/lib.rs). The far sides, the
-- socket, the channel of commands and the one to ingress, are a list of what `select!` yields.
use codex_warden.Prelude.{
  ℕ, ◌-◌, ◌*◌, add64, if◌then◌else◌, String, Bool, true, false, Option, some, none, List, [], ◌∷◌,
  ap, leb, ◌&&◌, not, Result, ok, err, unwrap_or, lookup, insert, remove, ℕ_discrete,
  string_discrete,
}
use codex_warden.Protocol.Json.{Json, RpcId, number, string, request as request_json, notification}
use codex_warden.Protocol.Frame.{IncomingFrame, parse}
use codex_warden.Protocol.Event.{SequencedEvent, from_frame}
use codex_warden.Transport.Request.{RequestError, not_written, written_outcome_unknown, Reply}

number_of : RpcId → ℕ
number_of (number n) = n
number_of (string s) = 0

text_of : RpcId → String
text_of (number n) = ""
text_of (string s) = s

-- The equality that the map of pending requests uses.
unfoldable pub rpc_id_discrete : Discrete RpcId
unfolding number_of text_of
rpc_id_discrete (number m) (number n) = elim (ℕ_discrete m n) [
  | yes p ↦ yes (ap number p)
  | no h ↦ no (λ e. absurd (h (ap number_of e)))
]
rpc_id_discrete (number m) (string s) = no (λ e. cc)
rpc_id_discrete (string s) (number m) = no (λ e. cc)
rpc_id_discrete (string s) (string t) = elim (string_discrete s t) [
  | yes p ↦ yes (ap string p)
  | no h ↦ no (λ e. absurd (h (ap text_of e)))
]

pub data ConnectionPhase : Type 0 where
  connecting handshaking reconciling connected degraded stopped : ConnectionPhase

pub record Health : Type 0 where
  pub phase : ConnectionPhase
  pub reconnect_attempts : ℕ
  pub last_frame_sequence : ℕ
  pub detail : Option String

-- A `oneshot` channel is a number.
pub data Command (V : Type 0) : Type 0 where
  request : (id : RpcId) (method : String) (params : V) (response : ℕ) → Command V
  notify : (method : String) (params : V) → Command V
  reconciled : (done : ℕ) → Command V
  shutdown : (done : ℕ) → Command V

pub record Pending : Type 0 where
  pub method : String
  pub response : ℕ

pub data DriveExit : Type 0 where
  shutdown : (done : ℕ) → DriveExit
  disconnected : String → DriveExit
  commands_closed : DriveExit

-- What `socket.next()` yields: the end, an error, a ping, or a message with what `message_json`
-- makes of it.
pub data Incoming (V : Type 0) : Type 0 where
  ended : Incoming V
  failed : String → Incoming V
  ping : Incoming V
  json : Result (Option V) String → Incoming V

-- What `select!` yields, and what other tasks do in between. A command comes with the error of the
-- socket's write, if there is one; a message with the system clock and with whether ingress is still
-- there; a tick with whether a ping can be written.
pub data Input (V : Type 0) : Type 0 where
  command : Option (Command V) → (write_error : Option String) → Input V
  message : Incoming V → (unix : ℕ) (ingress : Bool) → Input V
  tick : (ping_written : Bool) → Input V
  -- Another task writes the reconciliation gate.
  gate : Bool → Input V

-- The state of a connection, with what it has sent so far, the latest first: the frames, the
-- answers to requests, the acknowledgements and the events.
pub record Connection (V : Type 0) : Type 0 where
  pub pending : List (RpcId × Pending)
  pub last_read : ℕ
  pub sequence : ℕ
  pub reconcile_ready : Bool
  pub health : Health
  pub frames : List V
  pub answers : List (ℕ × Reply V)
  pub acknowledged : List ℕ
  pub events : List (SequencedEvent V)

module _ {V : Type 0} (j : Json V) (read_idle_timeout : ℕ) (show_idle : ℕ → String) where
  -- A command. A write error ends the connection.
  unfoldable pub obey :
      Option (Command V) → Option String → Connection V → Connection V × Option DriveExit
  obey none write_error c = (c, some commands_closed)
  obey (some (Command.request id m params response)) (some error) c = (
    record c { answers = (response, err (not_written error)) ∷ c.answers },
    some (disconnected error),
  )
  obey (some (Command.request id m params response)) none c = (
    record c {
      frames = request_json j id m params ∷ c.frames;
      pending = insert rpc_id_discrete id (record { method = m; response = response }) c.pending;
    },
    none,
  )
  obey (some (notify m params)) (some error) c = (c, some (disconnected error))
  obey (some (notify m params)) none c =
      (record c { frames = notification j m params ∷ c.frames }, none)
  obey (some (reconciled done)) write_error c = (
    record c {
      reconcile_ready = true;
      health = record (c.health) {
        phase = connected;
        last_frame_sequence = c.sequence;
        detail = none;
      };
      acknowledged = done ∷ c.acknowledged;
    },
    none,
  )
  obey (some (Command.shutdown done)) write_error c = (c, some (DriveExit.shutdown done))

  -- The answer to a pending request.
  unfoldable pub answer : IncomingFrame V → Connection V → Connection V
  answer (IncomingFrame.response id result error raw) c =
      elim (lookup rpc_id_discrete id c.pending) [
        | none ↦ c
        | some p ↦
            let reply : Reply V = elim error [
              | some e ↦ err (RequestError.rejected p.method e)
              | none ↦ ok (unwrap_or result j.null)
            ] in
            record c {
              pending = remove rpc_id_discrete id c.pending;
              answers = (p.response, reply) ∷ c.answers;
            }
      ]
  answer _ c = c

  -- A frame that was parsed: it gets the next number.
  unfoldable pub accept :
      (unix now : ℕ) (ingress : Bool)
      → IncomingFrame V
      → Connection V
      → Connection V × Option DriveExit
  unfolding answer
  accept unix now ingress frame c =
      let seq = add64 c.sequence 1 in
      let c' = answer frame (record c { sequence = seq }) in
      elim ingress [
        | false ↦ (c', some commands_closed)
        | true ↦ (
          record c' {
            events = from_frame j unix seq now frame ∷ c'.events;
            health = record (c'.health) { last_frame_sequence = seq };
          },
          none,
        )
      ]

  unfoldable pub hear :
      (unix now : ℕ) (ingress : Bool) → Incoming V → Connection V → Connection V × Option DriveExit
  unfolding accept
  hear unix now ingress ended c = (c, some (disconnected "websocket stream ended"))
  hear unix now ingress (failed error) c = (c, some (disconnected error))
  hear unix now ingress ping c = (record c { last_read = now }, none)
  hear unix now ingress (json (err error)) c =
      (record c { last_read = now }, some (disconnected error))
  hear unix now ingress (json (ok none)) c = (record c { last_read = now }, none)
  hear unix now ingress (json (ok (some value))) c = elim (parse j value) [
    | err _ ↦ (record c { last_read = now }, none)
    | ok frame ↦ accept unix now ingress frame (record c { last_read = now })
  ]

  -- A tick of the interval.
  unfoldable pub watch : (now : ℕ) (ping_written : Bool) → Connection V → Option DriveExit
  watch now ping_written c =
      let idle = now - c.last_read in
      if leb (read_idle_timeout * 2) idle
      then some (disconnected (show_idle idle))
      else if leb read_idle_timeout idle && not ping_written
      then some (disconnected "ping write failed")
      else none

  -- One round of the loop. Time is counted from the start of the transport.
  unfoldable pub round : ℕ → Input V → Connection V → Connection V × Option DriveExit
  unfolding obey hear watch
  round now (command c write_error) s = obey c write_error s
  round now (message m unix ingress) s = hear unix now ingress m s
  round now (tick ping_written) s = (s, watch now ping_written s)
  round now (gate is_open) s = (record s { reconcile_ready = is_open }, none)

  -- The loop, until it breaks or the inputs are used up.
  unfoldable pub rounds : List (ℕ × Input V) → Connection V → Connection V × Option DriveExit
  unfolding round
  rounds [] s = (s, none)
  rounds ((now, i) ∷ is) s =
      let (s', exit) = round now i s in
      let rest = rounds is s' in elim exit [ some e ↦ (s', some e) | none ↦ rest ]

abbrev pub exit_detail : DriveExit → String
exit_detail (disconnected detail) = detail
exit_detail _ = "connection closed"

module _ {V : Type 0} where
  -- The answers to what is pending when the loop breaks.
  unfoldable pub settle : String → List (RpcId × Pending) → List (ℕ × Reply V) → List (ℕ × Reply V)
  settle detail [] answers = answers
  settle detail ((id, p) ∷ rest) answers =
      (p.response, err (written_outcome_unknown id p.method detail)) ∷ settle detail rest answers

module _ {V : Type 0} (j : Json V) (read_idle_timeout : ℕ) (show_idle : ℕ → String) where
  -- `drive` over inputs; no exit while it still runs.
  unfoldable pub drive : List (ℕ × Input V) → Connection V → Connection V × Option DriveExit
  unfolding rounds settle
  drive is s =
      let (s', exit) = rounds j read_idle_timeout show_idle is s in
      elim exit [
        | none ↦ (s', none)
        | some e ↦ (
          record s' { pending = []; answers = settle (exit_detail e) s'.pending s'.answers },
          some e,
        )
      ]
