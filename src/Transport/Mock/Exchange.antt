-- ===== src/Transport/Mock/Exchange.antt =====
-- A request of the client at the mock app server (src/transport/src/mock.rs).
use codex_warden.Prelude.{
  ℕ, ◌-◌, String, true, false, Option, some, none, ◌∷◌, ok, err, ◌≡◌, ◌∙◌, if_pos, refl, arith,
  lookup, string_discrete, lookup-insert, lookup-remove, if◌then◌else◌, Bool-cases, unwrap_or, inl,
  inr,
}
use codex_warden.Protocol.Json.{Json, JsonLaws, RpcId, get_str, request as request_json}
use codex_warden.Protocol.Frame
use codex_warden.Protocol.Frame.{IncomingFrame, parse, rpc_id_or}
use codex_warden.Transport.Request.{Reply, RequestError}
use codex_warden.Transport.Drive.{
  Command, Connection, Pending, DriveExit, obey, hear, accept, answer, json, rpc_id_discrete,
}
use codex_warden.Transport.Mock.{
  Fault, MockState, index, result_of, resume_error, response_json, fails, respond, handle_request,
}
use codex_warden.Transport.Mock.Serve.{
  Served, frame, note, is_half_open, disconnects, interrupts, reply_to, serve_value, serve_message,
}

module _ {V : Type 0} (j : Json V) (laws : JsonLaws j) where
  pub parse-result :
      (id : RpcId) (value : V)
      → let v = response_json j (j.of_rpc_id id) "result" value in
        parse j v ≡ ok (Frame.response id (some value) none v)
  unfolding parse response_json lookup string_discrete
  parse-result id value = simp laws.get-object (rw (laws.to_rpc_id-of_rpc_id id, rpc_id_or))

  pub parse-error :
      (id : RpcId) (value : V)
      → let v = response_json j (j.of_rpc_id id) "error" value in
        parse j v ≡ ok (Frame.response id none (some value) v)
  unfolding parse response_json lookup string_discrete
  parse-error id value = simp laws.get-object (rw (laws.to_rpc_id-of_rpc_id id, rpc_id_or))

  -- The parts of a request, as the server reads them.
  request-parts :
      (id : RpcId) (m : String) (params : V)
      → let v = request_json j id m params in
        (j.get v "id" ≡ some (j.of_rpc_id id))
        × (get_str j v "method" ≡ some m)
        × (index j v "params" ≡ params)
  unfolding request_json lookup string_discrete
  request-parts id m params =
      (simp laws.get-object, simp (laws.get-object, laws.as_str-text), simp laws.get-object)

  pub handle_request-request :
      (id : RpcId) (m : String) (params : V) (s : MockState V)
      → handle_request j (request_json j id m params) s
        ≡ (let (s', v) = respond j (j.of_rpc_id id) m params s in (s', some v))
  unfolding handle_request
  handle_request-request id m params s =
      let (i, n, p) = request-parts id m params in rw (i, n, p, handle_request) refl

  -- The answer to a request is read back as a response with the id of the request, and
  -- carries the result for its method; a resumption that is to fail carries an error instead, and
  -- one failure fewer remains.
  handle_request-parse :
      (id : RpcId) (m : String) (params : V) (s : MockState V)
      → let (s', answer) = handle_request j (request_json j id m params) s in
        (v : V) × (answer ≡ some v)
        × (if fails s m
            then (parse j v ≡ ok (Frame.response id none (some (resume_error j)) v))
              × (s'.resume_failures_remaining ≡ s.resume_failures_remaining - 1)
            else (parse j v ≡ ok (Frame.response id (some (result_of j s.threads m params)) none v))
              × (s' ≡ s))
  unfolding respond response_json
  handle_request-parse id m params s =
      rw (handle_request-request id m params s) (elim (Bool-cases (fails s m)) [
        | inl e ↦ rw (e, respond) (_, refl, (parse-error id (resume_error j), refl))
        | inr e ↦
            rw (e, respond) (_, refl, (parse-result id (result_of j s.threads m params), refl))
      ])

module _ {V : Type 0} (j : Json V) (limit : ℕ) (show_idle : ℕ → String) where
  -- What a caller gets from a response.
  abbrev pub reply_of : String → (result error : Option V) → Reply V
  reply_of m result (some e) = err (RequestError.rejected m e)
  reply_of m result none = ok (unwrap_or result j.null)

  -- The answer, and nothing pending with the id any more.
  abbrev pub Answers : RpcId → ℕ → Reply V → Connection V → Connection V × Option DriveExit → Type 0
  Answers id channel reply c (c', exit) =
      (exit ≡ none)
      × (c'.answers ≡ (channel, reply) ∷ c.answers)
      × (lookup rpc_id_discrete id c'.pending ≡ none)

  hear-Answers :
      (id : RpcId) (p : Pending) (result error : Option V) (v : V) (now unix : ℕ) (c : Connection V)
      → parse j v ≡ ok (Frame.response id result error v)
      → lookup rpc_id_discrete id c.pending ≡ some p
      → Answers id p.response
          (reply_of p.method result error)
          c
          (hear j limit show_idle unix now true (json (ok (some v))) c)
  unfolding hear accept answer
  hear-Answers id p result (some e) v now unix c parsed held =
      rw (parsed, hear)
        (rw (held, answer)
          (refl, refl, ground (arith, lookup-remove rpc_id_discrete id id c.pending)))
  hear-Answers id p result none v now unix c parsed held =
      rw (parsed, hear)
        (rw (held, answer)
          (refl, refl, ground (arith, lookup-remove rpc_id_discrete id id c.pending)))

module _ {V : Type 0} (j : Json V) where
  -- The fault that is set does not concern the message.
  abbrev pub Spared : Fault → V → Type 0
  Spared fault value =
      (is_half_open fault ≡ false)
      × (disconnects j fault value ≡ false)
      × (interrupts j fault value ≡ false)

  pub serve-reply_to :
      (value : V) (first : Option String) (s : Served V)
      → Spared s.state.fault value
      → serve_message j (frame (ok value)) first none s
        ≡ reply_to j value none (record s { state = note j value s.state })
  unfolding serve_message serve_value
  serve-reply_to value first s (open_, stays, late) =
      rw (open_, serve_message) (rw (stays, serve_value) (rw (late, serve_value) refl))

module _ {V : Type 0} (j : Json V) (laws : JsonLaws j) (limit : ℕ) (show_idle : ℕ → String) where
  -- What the mock server has for a request.
  abbrev pub mock_reply : MockState V → String → V → Reply V
  mock_reply s m params =
      if fails s m
      then err (RequestError.rejected m (resume_error j))
      else ok (result_of j s.threads m params)

  pub reply_to-request :
      (id : RpcId) (m : String) (params : V) (s : Served V)
      → reply_to j (request_json j id m params) none s ≡ (
          let (state, v) = respond j (j.of_rpc_id id) m params s.state in
          (record s { state = state; sent = v ∷ s.sent }, none))
  unfolding reply_to
  reply_to-request id m params s =
      let e = handle_request-request j laws id m params s.state in rw (e, reply_to) (rw e refl)

  -- By the laws of the JSON values, a request that a connection writes, taken by a mock server whose
  -- fault does not concern it, is answered on its channel: the server sends one frame, and the connection that hears it answers
  -- with the result for the method, or with the rejection of a resumption that is to fail, goes on,
  -- and has nothing pending with the id any more.
  pub request_exchange :
      (id : RpcId) (m : String) (params : V) (channel now unix : ℕ) (c : Connection V)
      (s : Served V)
      → Spared j s.state.fault (request_json j id m params)
      → let c' = (obey j limit show_idle (some (Command.request id m params channel)) none c).0 in
        let (s', end) = serve_message j (frame (ok (request_json j id m params))) none none s in
        (end ≡ none)
        × ((v : V) × (s'.sent ≡ v ∷ s.sent)
            × Answers j limit show_idle id channel
                (mock_reply s.state m params)
                c
                (hear j limit show_idle unix now true (json (ok (some v))) c'))
  unfolding obey respond response_json
  request_exchange id m params channel now unix c s spared =
      let p : Pending = record { method = m; response = channel } in
      let noted : Served V = record s { state = note j (request_json j id m params) s.state } in
      let sending =
        (obey j limit show_idle (some (Command.request id m params channel)) none c).0 in
      let held =
        lookup-insert rpc_id_discrete id id p c.pending ∙ if_pos (rpc_id_discrete id id) refl _ _ in
      rw
        (
          serve-reply_to j (request_json j id m params) none s spared,
          reply_to-request id m params noted,
        )
        (elim (Bool-cases (fails s.state m)) [
          | inl e ↦
              rw (e, respond)
                (
                  refl,
                  (
                    _,
                    refl,
                    hear-Answers j limit show_idle id p none (some (resume_error j)) _ now unix
                        sending (parse-error j laws id (resume_error j)) held,
                  ),
                )
          | inr e ↦
              rw (e, respond)
                (
                  refl,
                  (
                    _,
                    refl,
                    hear-Answers j limit show_idle id p
                        (some (result_of j s.state.threads m params)) none _ now unix _
                        (parse-result j laws id (result_of j s.state.threads m params)) held,
                  ),
                )
        ])
