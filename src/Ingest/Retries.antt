-- ===== src/Ingest/Retries.antt =====
-- A discovery's resumption against the mock app server (src/ingest/src/lib.rs and
-- src/transport/src/mock.rs).
use codex_warden.Prelude.{
  ℕ, zero, suc, ◌+◌, ◌-◌, ◌≤◌, ◌<◌, String, true, false, Option, some, none, List, [], ◌∷◌, ◌≡◌,
  refl, ap, arith, ok, err, ltb, Bool-cases, inl, inr, unwrap_or, length, if◌then◌else◌,
}
use codex_warden.Protocol.Json.{Json, JsonLaws, RpcId, number, request as request_json}
use codex_warden.Protocol.Frame
use codex_warden.Protocol.Frame.{parse}
use codex_warden.Transport.Request.{Reply, RequestError, closed}
use codex_warden.Transport.Mock.{
  MockState, resume_error, result_of, response_json, fails, respond, handle_request,
}
use codex_warden.Transport.Mock.Exchange.{handle_request-request, parse-error, parse-result}
use codex_warden.Ingest.World.{
  IngestConfig, DiscoverySource, SubscriptionState, subscribing, retry_wait, set_state,
  DiscoveryOutcome, Exchange, World, meddle, call, is_ephemeral_error,
}
use codex_warden.Ingest.Discover.{resumed, gave_up, resume, resume_arm, resume_params, again, fail}

module _ {V : Type 0} (j : Json V) where
  -- What a caller gets from the server's answer.
  abbrev pub reply_from : String → Option V → Reply V
  reply_from method none = err closed
  reply_from method (some v) = elim (parse j v) [
    | ok (Frame.response id result none raw) ↦ ok (unwrap_or result j.null)
    | ok (Frame.response id result (some e) raw) ↦ err (RequestError.rejected method e)
    | _ ↦ err closed
  ]

  -- The exchanges with a mock server for a number of resumptions, while no other task does anything.
  unfoldable pub resumptions : ℕ → V → MockState V → List (Exchange V)
  resumptions zero params s = []
  resumptions (suc n) params s =
      let (s', answer) = handle_request j (request_json j (number n) "thread/resume" params) s in
      record { before = []; reply = reply_from "thread/resume" answer; asleep = [] }
      ∷ resumptions n params s'

module _ {V : Type 0} (j : Json V) (laws : JsonLaws j) where
  reply_from-error :
      (id : RpcId) (m : String) (e : V)
      → reply_from j m (some (response_json j (j.of_rpc_id id) "error" e))
        ≡ err (RequestError.rejected m e)
  reply_from-error id m e = rw (reply_from, parse-error j laws id e) refl

  reply_from-result :
      (id : RpcId) (m : String) (r : V)
      → reply_from j m (some (response_json j (j.of_rpc_id id) "result" r)) ≡ ok r
  reply_from-result id m r = rw (reply_from, parse-result j laws id r) refl

  -- The answer to a resumption, by whether a failure remains.
  fails-answer :
      (id : RpcId) (f : ℕ) (params : V) (s : MockState V)
      → s.resume_failures_remaining ≡ suc f
      → handle_request j (request_json j id "thread/resume" params) s ≡ (
        record s { resume_failures_remaining = f },
        some (response_json j (j.of_rpc_id id) "error" (resume_error j)),
      )
  unfolding respond
  fails-answer id f params s failing =
      let failing' : fails s "thread/resume" ≡ true = ground (arith, failing) in
      let less : s.resume_failures_remaining - 1 ≡ f = omega (arith, failing) in
      rw (handle_request-request j laws id "thread/resume" params s)
        (rw (respond, failing') (rw less refl))

  works-answer :
      (id : RpcId) (params : V) (s : MockState V)
      → s.resume_failures_remaining ≡ 0
      → handle_request j (request_json j id "thread/resume" params) s ≡ (
        s,
        some (
            response_json j
              (j.of_rpc_id id)
              "result"
              (result_of j s.threads "thread/resume" params)),
      )
  unfolding respond
  works-answer id params s none_ =
      let works : fails s "thread/resume" ≡ false = ground (arith, none_) in
      rw (handle_request-request j laws id "thread/resume" params s) (rw (respond, works) refl)

  resumptions-fails :
      (n f : ℕ) (params : V) (s : MockState V)
      → s.resume_failures_remaining ≡ suc f
      → resumptions j (suc n) params s
        ≡ record {
          before = [];
          reply = err (RequestError.rejected "thread/resume" (resume_error j));
          asleep = [];
        }
          ∷ resumptions j n params (record s { resume_failures_remaining = f })
  unfolding resumptions
  resumptions-fails n f params s failing =
      rw (resumptions, fails-answer (number n) f params s failing)
        (rw (reply_from-error (number n) "thread/resume" (resume_error j)) refl)

  resumptions-works :
      (n : ℕ) (params : V) (s : MockState V)
      → s.resume_failures_remaining ≡ 0
      → resumptions j (suc n) params s
        ≡ record {
          before = [];
          reply = ok (result_of j s.threads "thread/resume" params);
          asleep = [];
        }
          ∷ resumptions j n params s
  unfolding resumptions
  resumptions-works n params s none_ =
      rw (resumptions, works-answer (number n) params s none_)
        (rw
          (reply_from-result (number n) "thread/resume"
            (result_of j s.threads "thread/resume" params))
          refl)

module _ {V : Type 0} (j : Json V) (laws : JsonLaws j) (config : IngestConfig) (id : String)
    (source : DiscoverySource) (shown : is_ephemeral_error j (resume_error j) ≡ true) where
  abbrev params : V
  params = resume_params j config id

  abbrev asked : World V → World V
  asked w = record w { sent = ("thread/resume", params) ∷ w.sent }

  abbrev retried : ℕ → World V → World V
  retried attempt w =
      set_state id (subscribing source (attempt + 1))
        (set_state id (retry_wait (attempt + 1)) (asked w))

  abbrev scripted : List (Exchange V) → World V → World V
  scripted xs w = record w { script = xs }

  arm_again :
      (attempt : ℕ) (m : String)
      → ltb attempt config.resume_retry_limit ≡ true
      → resume_arm j config attempt (err (RequestError.rejected m (resume_error j))) ≡ again
  unfolding resume_arm
  arm_again attempt m below = rw (resume_arm, shown) (rw below refl)

  arm_last :
      (attempt : ℕ) (m : String)
      → ltb attempt config.resume_retry_limit ≡ false
      → resume_arm j config attempt (err (RequestError.rejected m (resume_error j)))
        ≡ fail SubscriptionState.ephemeral DiscoveryOutcome.ephemeral
  unfolding resume_arm
  arm_last attempt m over = rw (resume_arm, shown) (rw over refl)

  again_lem :
      (fuel attempt : ℕ) (w : World V) (rest : List (Exchange V))
      → ltb attempt config.resume_retry_limit ≡ true
      → resume j config (suc fuel) attempt id source (
          scripted
            (record {
              before = [];
              reply = err (RequestError.rejected "thread/resume" (resume_error j));
              asleep = [];
            }
              ∷ rest)
            w)
        ≡ resume j config fuel (attempt + 1) id source (scripted rest (retried attempt w))
  unfolding resume call meddle
  again_lem fuel attempt w rest below = rw (resume, arm_again attempt "thread/resume" below) refl

  last_lem :
      (fuel attempt : ℕ) (w : World V) (rest : List (Exchange V))
      → ltb attempt config.resume_retry_limit ≡ false
      → let (w', end) = resume j config (suc fuel) attempt id source (
          scripted
            (record {
              before = [];
              reply = err (RequestError.rejected "thread/resume" (resume_error j));
              asleep = [];
            }
              ∷ rest)
            w) in
        (end ≡ gave_up DiscoveryOutcome.ephemeral) × (w'.sent ≡ (asked w).sent)
  unfolding resume call meddle
  last_lem fuel attempt w rest over =
      rw (resume, arm_last attempt "thread/resume" over) (refl, refl)

  done_lem :
      (fuel attempt : ℕ) (w : World V) (rest : List (Exchange V)) (r : V)
      → let (w', end) =
          resume j config
            (suc fuel)
            attempt
            id
            source
            (scripted (record { before = []; reply = ok r; asleep = [] } ∷ rest) w) in
        (end ≡ resumed) × (w'.sent ≡ (asked w).sent)
  unfolding resume call meddle resume_arm
  done_lem fuel attempt w rest r = (refl, refl)

  retries_succeed :
      (f fuel n attempt : ℕ) (s : MockState V) (w : World V)
      → s.resume_failures_remaining ≡ f
      → f ≤ fuel
      → f ≤ n
      → attempt + f ≤ config.resume_retry_limit
      → let (w', end) =
          resume j config
            (suc fuel)
            attempt
            id
            source
            (scripted (resumptions j (suc n) params s) w) in
        (end ≡ resumed) × (length w'.sent ≡ length w.sent + f + 1)
  retries_succeed zero fuel n attempt s w left enough more room =
      rw (resumptions-works j laws n params s left) (
        let (e, t) =
          done_lem fuel attempt w (resumptions j n params s)
            (result_of j s.threads "thread/resume" params) in
        (e, omega (arith, ap length t)))
  retries_succeed (suc f) zero n attempt s w left enough more room = absurd (omega arith)
  retries_succeed (suc f) (suc fuel) zero attempt s w left enough more room = absurd (omega arith)
  retries_succeed (suc f) (suc fuel) (suc n) attempt s w left enough more room =
      let s' : MockState V = record s { resume_failures_remaining = f } in
      let (e, t) =
        retries_succeed f fuel n (attempt + 1) s' (retried attempt w) refl (omega arith)
          (omega arith) (omega arith) in
      rw (resumptions-fails j laws (suc n) f params s left) (
        rw (again_lem (suc fuel) attempt w (resumptions j (suc n) params s') (ground arith))
          (e, omega (arith, t)))

  -- The rounds that remain are `d`, and at least as many failures.
  retries_give_up :
      (d fuel n attempt f : ℕ) (s : MockState V) (w : World V)
      → s.resume_failures_remaining ≡ suc (d + f)
      → d ≤ fuel
      → d ≤ n
      → attempt + d ≡ config.resume_retry_limit
      → let (w', end) =
          resume j config
            (suc fuel)
            attempt
            id
            source
            (scripted (resumptions j (suc n) params s) w) in
        (end ≡ gave_up DiscoveryOutcome.ephemeral) × (length w'.sent ≡ length w.sent + d + 1)
  retries_give_up zero fuel n attempt f s w left enough more last_ =
      rw (resumptions-fails j laws n (0 + f) params s left) (
        let (e, t) =
          last_lem fuel attempt w
            (resumptions j n params (record s { resume_failures_remaining = 0 + f }))
            (ground arith) in
        (e, omega (arith, ap length t)))
  retries_give_up (suc d) zero n attempt f s w left enough more last_ = absurd (omega arith)
  retries_give_up (suc d) (suc fuel) zero attempt f s w left enough more last_ =
      absurd (omega arith)
  retries_give_up (suc d) (suc fuel) (suc n) attempt f s w left enough more last_ =
      let s' : MockState V = record s { resume_failures_remaining = suc d + f } in
      let (e, t) =
        retries_give_up d fuel n (attempt + 1) f s' (retried attempt w) (omega arith) (omega arith)
          (omega arith) (omega arith) in
      rw (resumptions-fails j laws (suc n) (suc d + f) params s left) (
        rw (again_lem (suc fuel) attempt w (resumptions j (suc n) params s') (ground arith))
          (e, omega (arith, t)))

  -- By the laws of the JSON values, where a discovery meets a mock server whose next resumptions are
  -- to fail, no other task does anything, and the text of the server's error is one that the ingestor
  -- takes for a rollout that is missing: if the failures are fewer than the retry limit, which is at
  -- least one, the thread is resumed after one request more than there are failures; otherwise the
  -- ingestor gives it up as ephemeral after as many requests as the limit allows.
  pub resume-resumptions :
      (s : MockState V) (w : World V)
      → 1 ≤ config.resume_retry_limit
      → let limit = config.resume_retry_limit in
        let f = s.resume_failures_remaining in
        let (w', end) =
          resume j config
            (suc limit)
            1
            id
            source
            (record w { script = resumptions j (suc limit) (resume_params j config id) s }) in
        (end ≡ (if ltb f limit then resumed else gave_up DiscoveryOutcome.ephemeral))
        × (length w'.sent ≡ length w.sent + (if ltb f limit then f + 1 else limit))
  resume-resumptions s w some_ =
      let limit = config.resume_retry_limit in
      let f = s.resume_failures_remaining in
      elim (Bool-cases (ltb f limit)) [
        | inl e ↦
            let below : f < limit = ground (arith, e) in
            let (r, t) =
              retries_succeed f limit limit 1 s w refl (omega arith) (omega arith) (omega arith) in
            rw e (r, omega (arith, t))
        | inr e ↦
            let above : limit ≤ f = ground (arith, e) in
            let (r, t) =
              retries_give_up (limit - 1) limit limit 1 (f - limit) s w (omega arith) (omega arith)
                (omega arith) (omega arith) in
            rw e (r, omega (arith, t))
      ]
