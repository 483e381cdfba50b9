-- ===== src/Transport/System/Tests.antt =====
-- Examples of the handle and the task of the connections together.
use codex_warden.Prelude.{string_discrete}
use codex_warden.Prelude.{ℕ_discrete}
use codex_warden.Protocol.Frame.{parse}
use codex_warden.Samples.{get}
use codex_warden.Samples.{object}
use codex_warden.Samples.{to_rpc_id}
use codex_warden.Transport.Drive.{rpc_id_discrete}
use codex_warden.Transport.System.{oldest}
use codex_warden.Prelude.{
  ◌+◌, ◌≤◌, suc, true, false, ◌≡◌, ◌⊎◌, refl, arith, some, none, List, [], ◌∷◌, All, ok,
}
use codex_warden.Protocol.Json.{number}
use codex_warden.Transport.Handle.{late}
use codex_warden.Transport.Drive.{reconciled, ended}
use codex_warden.Transport.Handshake.{TransportConfig, default_config, Handshake, got, initialize}
use codex_warden.Transport.Mock.{response_json}
use codex_warden.Transport.System.{System, Move, asks, takes, hears, connects, step, steps, start}
use codex_warden.Transport.System.Tally.{queued, pending, answered}
use codex_warden.Transport.System.Wire.{is_call, written}
use codex_warden.Transport.System.Account.{request-answered}
use codex_warden.Transport.System.Frames.{frames-Calls}
use codex_warden.Transport.Drive.{request}
use codex_warden.Protocol.Json.{request as request_json}
use codex_warden.Transport.System.Stale.{stale_mark, stale_request}
use codex_warden.Samples.{json, laws, Value, nil}

abbrev config : TransportConfig
config = default_config "/home" "1"

-- The daemon answers the handshake.
abbrev shaken : Handshake Value
shaken = record {
  opening_error = none;
  greetings =
      got (ok (some (response_json json (json.of_rpc_id (number 0)) "result" nil))) 1 1 true ∷ [];
  closing_error = none;
}

-- A connection that takes a request and ends.
abbrev traffic : List (Move Value)
traffic = connects shaken 0 ∷ takes 1 none ∷ hears 2 ended 2 true ∷ []

abbrev begun : System Value
begun = steps json config (λ _. "long") [] (start json config (λ _. "long"))

request-answered_example :
    let t =
      steps json config
        (λ _. "long")
        traffic
        (step json config (λ _. "long") (asks "turn/start" nil false late) begun) in
    (queued begun.handle.channels t.handle.commands
        + pending begun.handle.channels t.connection.pending
        + answered begun.handle.channels t.connection.answers
      ≡ 1)
    × ((t.live ≡ true) ⊎ (t.connection.pending ≡ []))
    × (answered 0 t.connection.answers ≤ 1)
unfolding steps
request-answered_example =
    request-answered json config (λ _. "long") [] traffic "turn/start" nil false late 0
      (omega arith) refl refl

-- A request made before the first connection.
abbrev taken : System Value
taken =
    steps json config (λ _. "long") (connects shaken 0 ∷ [])
      (step json config (λ _. "long") (asks "turn/start" nil false late) begun)

frames-Calls_example :
    let frames =
      (steps json config
        (λ _. "long")
        traffic
        (start json config (λ _. "long"))).connection.frames in
    All (λ v. is_call json v ≡ true) frames × (written json (number (suc 0)) frames ≤ 1)
frames-Calls_example = frames-Calls json laws config (λ _. "long") traffic 0 (omega arith)

-- A driven connection with a mark in the queue.
abbrev marked : System Value
marked = record begun {
  handle = record (begun.handle) { commands = reconciled 0 ∷ [] };
  live = true;
}

stale_mark_example :
    let down = step json config (λ _. "long") (hears 1 ended 1 true) marked in
    let up = step json config (λ _. "long") (connects shaken 2) down in
    let t = step json config (λ _. "long") (takes 3 none) up in
    (t.live ≡ true)
    × (t.handle.reconcile_ready ≡ true)
    × (t.connection.frames ≡ (initialize json config shaken down.connection).0.frames)
unfolding steps initialize oldest parse get response_json object string_discrete to_rpc_id
    rpc_id_discrete ℕ_discrete
stale_mark_example =
    stale_mark json config (λ _. "long") 1 3 2 1 true none shaken marked [] 0 refl refl refl refl

-- A driven connection with an action's request in the queue.
abbrev requested : System Value
requested = record begun {
  handle = record (begun.handle) { commands = request (number 1) "turn/start" nil 0 ∷ [] };
  live = true;
}

stale_request_example :
    let down = step json config (λ _. "long") (hears 1 ended 1 true) requested in
    let up = step json config (λ _. "long") (connects shaken 2) down in
    let t = step json config (λ _. "long") (takes 3 none) up in
    (t.live ≡ true)
    × (t.handle.reconcile_ready ≡ false)
    × (t.connection.frames
        ≡ request_json json (number 1) "turn/start" nil
          ∷ (initialize json config shaken down.connection).0.frames)
unfolding steps initialize oldest parse get response_json object string_discrete to_rpc_id
    rpc_id_discrete ℕ_discrete
stale_request_example =
    stale_request json config (λ _. "long") 1 3 2 1 true shaken requested [] (number 1) "turn/start"
      nil 0 refl refl refl refl
