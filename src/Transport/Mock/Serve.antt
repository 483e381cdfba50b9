-- ===== src/Transport/Mock/Serve.antt =====
-- `serve_connection` of the mock app server (src/transport/src/mock.rs).
use codex_warden.Prelude.{
  ◌+◌, String, Bool, true, false, Option, some, none, List, [], ◌∷◌, Result, ok, err, ◌&&◌, is_none,
  is_some, not, ◌||◌, if◌then◌else◌,
}
use codex_warden.Protocol.Json.{Json}
use codex_warden.Transport.Mock.{
  Fault, disconnect_on_method, half_open, interrupt_completion_before_response, MockState, index,
  handle_request,
}

-- What the socket yields: its end, an error, a ping, a close, a message that is none of these or a
-- text with what `serde_json` makes of it.
pub data Inbound (V : Type 0) : Type 0 where
  ended : Inbound V
  failed : String → Inbound V
  ping : Inbound V
  close : Inbound V
  other : Inbound V
  frame : Result V String → Inbound V

-- One selection of the loop, or a change of the state by another task. The errors of the writes
-- come with it, in order.
pub data Selected (V : Type 0) : Type 0 where
  received : Inbound V → (first second : Option String) → Selected V
  -- What `outgoing.recv()` yields, nothing when the receiver lags or the sender is gone.
  emitted : Option V → (write_error : Option String) → Selected V
  alters : (MockState V → MockState V) → Selected V

-- The state, what has been written to the socket, the latest first, and whether the loop awaits a
-- selection: with the half-open fault it sleeps at its top, but a selection that it awaits already
-- stays. Other tasks change the state between selections only.
pub record Served (V : Type 0) : Type 0 where
  pub state : MockState V
  pub sent : List V
  pub selecting : Bool

abbrev pub is_half_open : Fault → Bool
is_half_open half_open = true
is_half_open _ = false

module _ {V : Type 0} where
  -- `socket.send(…).map_err(…)?`: an error ends the connection.
  abbrev pub write : V → Option String → Served V → Served V × Option (Result (Unit {0}) String)
  write value none s = (record s { sent = value ∷ s.sent }, none)
  write value (some error) s = (s, some (err error))

module _ {V : Type 0} (j : Json V) where
  abbrev pub disconnects : Fault → V → Bool
  disconnects (disconnect_on_method target) value = j.field_is value "method" target
  disconnects _ value = false

  abbrev pub interrupts : Fault → V → Bool
  interrupts interrupt_completion_before_response value = j.field_is value "method" "turn/interrupt"
  interrupts _ value = false

  -- The state after a message is noted.
  abbrev pub note : V → MockState V → MockState V
  note value s = record s {
    responses_to_server_requests =
        if is_none (j.get value "method") && is_some (j.get value "id")
        then s.responses_to_server_requests + 1
        else s.responses_to_server_requests;
    received = value ∷ s.received;
  }

  -- The completion that comes before the response to an interrupt.
  unfoldable pub completion_json : V → V
  completion_json params = j.object (
      ("jsonrpc", j.text "2.0")
      ∷ ("method", j.text "turn/completed")
      ∷ (
        "params",
        j.object (
            ("threadId", index j params "threadId")
            ∷ (
              "turn",
              j.object (("id", index j params "turnId") ∷ ("status", j.text "interrupted") ∷ []),
            )
            ∷ []),
      )
      ∷ [])

  -- From `handle_request` on.
  unfoldable pub reply_to :
      V → Option String → Served V → Served V × Option (Result (Unit {0}) String)
  reply_to value error s =
      let (state, response) = handle_request j value s.state in
      let s' : Served V = record s { state = state } in
      elim response [ none ↦ (s', none) | some v ↦ write v error s' ]

  -- A message that was parsed.
  unfoldable pub serve_value :
      V → (first second : Option String) → Served V → Served V × Option (Result (Unit {0}) String)
  unfolding completion_json reply_to
  serve_value value first second s =
      let noted : Served V = record s { state = note value s.state } in
      if disconnects noted.state.fault value
      then (noted, some (ok tt))
      else if interrupts noted.state.fault value
      then (let (s', end) = write (completion_json (index j value "params")) first noted in
          elim end [ some e ↦ (s', some e) | none ↦ reply_to value second s' ])
      else reply_to value second noted

  unfoldable pub serve_message :
      Inbound V
      → (first second : Option String) → Served V
      → Served V × Option (Result (Unit {0}) String)
  unfolding serve_value
  serve_message ended first second s = (s, some (ok tt))
  serve_message (failed error) first second s = (s, some (err error))
  serve_message ping first second s =
      if is_half_open s.state.fault
      then (s, none)
      else elim first [ some e ↦ (s, some (err e)) | none ↦ (s, none) ]
  serve_message close first second s =
      if is_half_open s.state.fault then (s, none) else (s, some (ok tt))
  serve_message other first second s = (s, none)
  serve_message (frame (err error)) first second s =
      if is_half_open s.state.fault then (s, none) else (s, some (err error))
  serve_message (frame (ok value)) first second s =
      if is_half_open s.state.fault then (s, none) else serve_value value first second s

  -- The top of the loop.
  abbrev pub again : Served V → Served V
  again s = record s { selecting = not (is_half_open s.state.fault) }

  -- A value sent on `outgoing`.
  unfoldable pub relay : V → Option String → Served V → Served V × Option (Result (Unit {0}) String)
  relay value error s =
      if is_half_open s.state.fault || j.is_null value then (s, none) else write value error s

  -- One round of the loop: how it ends, if it does. While the loop sleeps nothing is selected.
  unfoldable pub serve_round : Selected V → Served V → Served V × Option (Result (Unit {0}) String)
  unfolding serve_message relay
  serve_round (received m first second) s =
      let (s', end) = serve_message m first second s in
      if s.selecting then (again s', end) else (s, none)
  serve_round (emitted none error) s = (if s.selecting then again s else s, none)
  serve_round (emitted (some value) error) s =
      let (s', end) = relay value error s in if s.selecting then (again s', end) else (s, none)
  serve_round (alters f) s =
      let s' : Served V = record s { state = f s.state } in
      (if s.selecting then s' else again s', none)

  unfoldable pub serve_connection :
      List (Selected V) → Served V → Served V × Option (Result (Unit {0}) String)
  unfolding serve_round
  serve_connection [] s = (s, none)
  serve_connection (x ∷ rest) s =
      let (s', end) = serve_round x s in
      let later = serve_connection rest s' in elim end [ some e ↦ (s', some e) | none ↦ later ]
