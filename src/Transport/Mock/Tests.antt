-- ===== src/Transport/Mock/Tests.antt =====
-- Examples of the mock app server.
use codex_warden.Prelude.{true, false, none, some, [], ◌∷◌, ◌≡◌, refl, ok}
use codex_warden.Protocol.Json.{number, request as request_json}
use codex_warden.Transport.Drive.{Command, json as heard, obey, hear}
use codex_warden.Transport.System.{start}
use codex_warden.Transport.Handshake.{default_config}
use codex_warden.Transport.Mock.{start_state, add_thread, set_resume_failures, half_open, set_fault}
use codex_warden.Transport.Mock.Serve.{
  Served, frame, serve_message, received, alters, serve_connection,
}
use codex_warden.Transport.Mock.Exchange.{Answers, mock_reply, request_exchange}
use codex_warden.Samples.{json, laws, Value, nil, text, field}

-- A server with a thread, whose next resumption fails.
abbrev served : Served Value
served = record {
  state = set_resume_failures 1 (
      add_thread
        (record { id = "t"; status = "idle"; turn_id = none; ephemeral = false; updated_at = 5 })
        start_state);
  sent = [];
  selecting = true;
}

request_exchange_example :
    let c = (start json (default_config "/home" "1") (λ _. "long")).connection in
    let params = field "threadId" (text "t") nil in
    let c' =
      (obey json 100
        (λ _. "long")
        (some (Command.request (number 1) "thread/resume" params 0))
        none
        c).0 in
    let (s', end) =
      serve_message json
        (frame (ok (request_json json (number 1) "thread/resume" params)))
        none
        none
        served in
    (end ≡ none)
    × ((v : Value) × (s'.sent ≡ v ∷ [])
        × Answers json 100
            (λ _. "long")
            (number 1)
            0
            (mock_reply json laws 100 (λ _. "long") served.state "thread/resume" params)
            c
            (hear json 100 (λ _. "long") 3 2 true (heard (ok (some v))) c'))
request_exchange_example =
    request_exchange json laws 100 (λ _. "long") (number 1) "thread/resume"
      (field "threadId" (text "t") nil) 0 2 3
      (start json (default_config "/home" "1") (λ _. "long")).connection served (refl, refl, refl)

-- Once the server is half open, a message is dropped if it was awaited, and none is read after it.
half_open_test :
    (serve_connection json
      (alters (set_fault json half_open)
        ∷ received (frame (ok nil)) none none
        ∷ received (frame (ok nil)) none none
        ∷ [])
      served).0.state.received
    ≡ []
unfolding serve_connection
half_open_test = refl
