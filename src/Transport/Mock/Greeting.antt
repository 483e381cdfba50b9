-- ===== src/Transport/Mock/Greeting.antt =====
-- The handshake of the client with the mock app server (src/transport/src/mock.rs and `initialize`
-- of src/transport/src/lib.rs).
use codex_warden.Prelude.{
  ℕ, true, none, some, List, ◌∷◌, ok, ◌≡◌, refl, string_discrete, ℕ_discrete,
}
use codex_warden.Protocol.Json.{Json, JsonLaws, number, request as request_json}
use codex_warden.Transport.Drive.{Connection, rpc_id_discrete}
use codex_warden.Transport.Handshake.{
  TransportConfig, Greeting, got, client_info, greet, initialize, initialized, verdict,
}
use codex_warden.Transport.Mock.{result_of, respond, response_json}
use codex_warden.Transport.Mock.Serve.{Served, frame, note, serve_message}
use codex_warden.Transport.Mock.Exchange.{Spared, serve-reply_to, reply_to-request, parse-result}

module _ {V : Type 0} (j : Json V) (laws : JsonLaws j) (config : TransportConfig) where
  -- The first message of the handshake.
  abbrev pub hello : V
  hello = request_json j (number 0) "initialize" (client_info j config)

  greet-response :
      (value : V) (unix now : ℕ) (later : List (Greeting V)) (c : Connection V)
      → let v = response_json j (j.of_rpc_id (number 0)) "result" value in
        (greet j config (got (ok (some v)) unix now true ∷ later) c).1 ≡ initialized
  unfolding greet verdict rpc_id_discrete ℕ_discrete
  greet-response value unix now later c = rw (parse-result j laws (number 0) value, greet) refl

  -- A handshake with a mock server whose fault does not concern it succeeds: the server answers the
  -- client's first message with one frame, and a client that reads it is initialized, if its writes
  -- succeed and ingress is still there.
  mock_handshake :
      (s : Served V) (unix now : ℕ) (later : List (Greeting V)) (c : Connection V)
      → Spared j s.state.fault hello
      → let (s', end) = serve_message j (frame (ok hello)) none none s in
        (end ≡ none)
        × ((v : V) × (s'.sent ≡ v ∷ s.sent)
            × ((initialize j config
                  (record {
                    opening_error = none;
                    greetings = got (ok (some v)) unix now true ∷ later;
                    closing_error = none;
                  })
                  c).1
                ≡ initialized))
  unfolding initialize respond string_discrete
  mock_handshake s unix now later c spared =
      rw
        (
          serve-reply_to j hello none s spared,
          reply_to-request j laws 0 (λ _. "") (number 0) "initialize" (client_info j config)
              (record s { state = note j hello s.state }),
        )
        (
          refl,
          (
            _,
            refl,
            rw
                (
                  greet-response (result_of j s.state.threads "initialize" (client_info j config))
                      unix now later (record c { frames = hello ∷ c.frames }),
                  initialize,
                )
                refl,
          ),
        )
