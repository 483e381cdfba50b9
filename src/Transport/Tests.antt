-- ===== src/Transport/Tests.antt =====
-- Examples of a connection.
use codex_warden.Prelude.{string_discrete}
use codex_warden.Protocol.Frame.{parse}
use codex_warden.Prelude.{
  ℕ, ◌≤◌, true, ◌≡◌, refl, arith, some, none, List, [], ◌∷◌, map, has, ok, All, ℕ_discrete,
}
use codex_warden.Protocol.Json.{number, notification}
use codex_warden.Transport.Drive.{
  request, Connection, connected, Input, message, ended, json, disconnected, drive,
}
use codex_warden.Transport.Numbering.{Consecutive, drive_numbers}
use codex_warden.Transport.Written.{Honest, written, written_once}
use codex_warden.Transport.Handshake.{default_config}
use codex_warden.Transport.Reconnect.{Attempt, running, start_link, connection_loop}
use codex_warden.Transport.Outage.{Quiet, outage}
use codex_warden.Samples
use codex_warden.Samples.{Value, nil}

-- A connection with one request in flight.
abbrev open_connection : Connection Value
open_connection = record {
  pending = (number 7, record { method = "turn/start"; response = 3 }) ∷ [];
  last_read = 0;
  sequence = 4;
  reconcile_ready = true;
  health = record {
    phase = connected;
    reconnect_attempts = 0;
    last_frame_sequence = 4;
    detail = none;
  };
  frames = [];
  answers = [];
  acknowledged = [];
  events = [];
}

-- A notification, and then the socket ends.
abbrev inputs : List (ℕ × Input Value)
inputs =
    (1, message (json (ok (some (notification Samples.json "turn/started" nil)))) 0 true)
    ∷ (2, message ended 0 true)
    ∷ []

drive_numbers_example :
    let s' = (drive Samples.json 100 (λ _. "long") inputs open_connection).0 in
    (top : ℕ) × Consecutive 4 top s'.events × (top ≤ s'.sequence)
drive_numbers_example =
    drive_numbers Samples.json 100 (λ _. "long") inputs open_connection refl (omega arith)

written_once_example :
    let answers =
      (drive Samples.json 100
        (λ _. "long")
        (written 9 Samples.json 100 (λ _. "long") 0 (number 8) "turn/start" nil ∷ inputs)
        open_connection).0.answers in
    (has ℕ_discrete 9 (map (λ a. a.0) answers) ≡ true) × All (Honest 9) answers
unfolding drive has parse Samples.get notification Samples.object string_discrete Samples.as_str
written_once_example =
    written_once 9 Samples.json 100 (λ _. "long") 0 (number 8) "turn/start" nil inputs
      open_connection (disconnected "websocket stream ended") (tt, (tt, tt)) (tt, (tt, tt)) refl
      refl

-- The socket cannot be reached, and a request comes while the loop waits.
abbrev missed : Attempt Value
missed = record {
  gate = none;
  connect_error = some "no socket";
  handshake = record { opening_error = none; greetings = []; closing_error = none };
  begun = 0;
  traffic = [];
  idle = some (some (request (number 1) "turn/start" nil 5));
}

outage_example :
    let config = default_config "/home" "1" in
    let (l, turn) =
      connection_loop Samples.json config
        (λ _. "long")
        (missed ∷ missed ∷ [])
        (start_link Samples.json config (λ _. "long")) in
    (turn ≡ running)
    × (l.backoff ≡ 400)
    × Quiet Samples.json config
        (λ _. "long")
        (missed ∷ missed ∷ [])
        (start_link Samples.json config (λ _. "long"))
        l
outage_example =
    outage Samples.json (default_config "/home" "1") (λ _. "long") 0 (missed ∷ missed ∷ [])
      (start_link Samples.json (default_config "/home" "1") (λ _. "long")) (refl, (refl, tt))
      (omega arith) refl
