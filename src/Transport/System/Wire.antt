-- ===== src/Transport/System/Wire.antt =====
-- What a round of a connection writes to the socket (`drive` and `initialize` of
-- src/transport/src/lib.rs).
use codex_warden.Prelude.{
  ℕ, suc, ◌+◌, ◌≤◌, String, Bool, true, false, Option, some, none, List, [], ◌∷◌, Result, ok, err,
  ◌≡◌, refl, ap, sym, subst, arith, lookup, sum_by, Option-cases, inl, inr, All,
}
use codex_warden.Protocol.Json.{
  Json, JsonLaws, RpcId, number, request as request_json, notification,
}
use codex_warden.Protocol.Frame
use codex_warden.Protocol.Frame.{IncomingFrame, parse}
use codex_warden.Protocol.Laws.{parse-request, parse-notification}
use codex_warden.Transport.Drive.{
  rpc_id_discrete, Command, notify, reconciled, DriveExit, Incoming, ended, failed, ping, json,
  Input, command, message, tick, gate, Connection, obey, answer, accept, hear, round, drive,
}
use codex_warden.Transport.System.Tally.{one_if, is_id}
use codex_warden.Transport.System.Fresh.{ids_of, ids_in, drive-one, closing}

module _ {V : Type 0} (j : Json V) where
  -- Whether a message is a request with an id, and whether it is a request or a notification.
  abbrev pub requests : RpcId → V → Bool
  requests k v = elim (parse j v) [
    | ok (Frame.server_request id m params known raw) ↦ is_id id k
    | _ ↦ false
  ]

  abbrev pub is_call : V → Bool
  is_call v = elim (parse j v) [
    | ok (Frame.server_request id m params known raw) ↦ true
    | ok (Frame.notification m params known raw) ↦ true
    | _ ↦ false
  ]

  -- How many such requests have been written.
  abbrev pub written : RpcId → List V → ℕ
  written k = sum_by (λ v. one_if (requests k v))

  abbrev pub Calls : List V → Type 0
  Calls = All (λ v. is_call v ≡ true)

  -- Frames that take over a request at most, each of them a call.
  pub record Writes (ids : RpcId → ℕ) (c c' : Connection V) : Type 0 where
    pub fewer :
        (n : ℕ)
        → written (number (suc n)) c'.frames
          ≤ ids (number (suc n)) + written (number (suc n)) c.frames
    pub calls : Calls c.frames → Calls c'.frames

  pub silent : (ids : RpcId → ℕ) (c c' : Connection V) → c'.frames ≡ c.frames → Writes ids c c'
  silent ids c c' e = record { fewer = λ n. rw e (omega arith); calls = λ h. subst Calls (sym e) h }

module _ {V : Type 0} (j : Json V) (laws : JsonLaws j) (limit : ℕ) (show_idle : ℕ → String) where
  pub requests-request :
      (k id : RpcId) (m : String) (params : V)
      → requests j k (request_json j id m params) ≡ is_id id k
  requests-request k id m params = rw (requests, parse-request j laws id m params) refl

  pub requests-notification :
      (k : RpcId) (m : String) (params : V) → requests j k (notification j m params) ≡ false
  requests-notification k m params = rw (requests, parse-notification j laws m params) refl

  pub is_call-request :
      (id : RpcId) (m : String) (params : V) → is_call j (request_json j id m params) ≡ true
  is_call-request id m params = rw (is_call, parse-request j laws id m params) refl

  pub is_call-notification : (m : String) (params : V) → is_call j (notification j m params) ≡ true
  is_call-notification m params = rw (is_call, parse-notification j laws m params) refl

  obey-Writes :
      (cmd : Option (Command V)) (error : Option String) (c : Connection V)
      → Writes j (ids_of cmd) c (obey j limit show_idle cmd error c).0
  unfolding obey
  obey-Writes none error c = silent j _ _ _ refl
  obey-Writes (some (Command.request id m params response)) (some error) c = silent j _ _ _ refl
  obey-Writes (some (Command.request id m params response)) none c = record {
    fewer = λ n. omega (arith, ap one_if (requests-request (number (suc n)) id m params));
    calls = λ h. (is_call-request id m params, h);
  }
  obey-Writes (some (notify m params)) (some error) c = silent j _ _ _ refl
  obey-Writes (some (notify m params)) none c = record {
    fewer = λ n. omega (arith, ap one_if (requests-notification (number (suc n)) m params));
    calls = λ h. (is_call-notification m params, h);
  }
  obey-Writes (some (reconciled done)) error c = silent j _ _ _ refl
  obey-Writes (some (Command.shutdown done)) error c = silent j _ _ _ refl

  answer-frames :
      (frame : IncomingFrame V) (c : Connection V)
      → (answer j limit show_idle frame c).frames ≡ c.frames
  unfolding answer
  answer-frames (Frame.notification m params known raw) c = refl
  answer-frames (Frame.server_request id m params known raw) c = refl
  answer-frames (Frame.response id result error raw) c =
      elim (Option-cases (lookup rpc_id_discrete id c.pending)) [
        | inl e ↦ rw (e, answer) refl
        | inr (p, e) ↦ rw (e, answer) refl
      ]

  hear-frames :
      (unix now : ℕ) (ingress : Bool) (m : Incoming V) (c : Connection V)
      → (hear j limit show_idle unix now ingress m c).0.frames ≡ c.frames
  unfolding hear accept
  hear-frames unix now ingress ended c = refl
  hear-frames unix now ingress (failed error) c = refl
  hear-frames unix now ingress ping c = refl
  hear-frames unix now ingress (json (err error)) c = refl
  hear-frames unix now ingress (json (ok none)) c = refl
  hear-frames unix now ingress (json (ok (some value))) c = go (parse j value) refl ingress
    where
      go :
          (parsed : Result (IncomingFrame V) String)
          → parse j value ≡ parsed
          → (here : Bool)
          → (hear j limit show_idle unix now here (json (ok (some value))) c).0.frames ≡ c.frames
      go (err e) q here = rw (q, hear) refl
      go (ok frame) q true = rw (q, hear) (answer-frames frame _)
      go (ok frame) q false = rw (q, hear) (answer-frames frame _)

  round-Writes :
      (now : ℕ) (i : Input V) (c : Connection V)
      → Writes j (ids_in j limit show_idle i) c (round j limit show_idle now i c).0
  unfolding round
  round-Writes now (command cmd error) c = obey-Writes cmd error c
  round-Writes now (message m unix ingress) c = silent j _ _ _ (hear-frames unix now ingress m c)
  round-Writes now (tick written) c = silent j _ _ _ refl
  round-Writes now (gate is_open) c = silent j _ _ _ refl

  closing-Writes :
      {ids : RpcId → ℕ} (c : Connection V) (r : Connection V × Option DriveExit)
      → Writes j ids c r.0
      → Writes j ids c (closing j limit show_idle r).0
  closing-Writes c (c', none) w = w
  closing-Writes c (c', some e) w = record { fewer = w.fewer; calls = w.calls }

  pub drive-Writes :
      (now : ℕ) (i : Input V) (c : Connection V)
      → Writes j (ids_in j limit show_idle i) c (drive j limit show_idle ((now, i) ∷ []) c).0
  drive-Writes now i c =
      rw (drive-one j limit show_idle now i c)
        (closing-Writes c (round j limit show_idle now i c) (round-Writes now i c))
