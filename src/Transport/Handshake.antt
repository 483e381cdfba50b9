-- ===== src/Transport/Handshake.antt =====
-- `TransportConfig` and `initialize` (src/transport/src/lib.rs). What the socket yields to each of
-- its awaits is given as a list.
use Prim.Native.String.{◌++◌ as append}
use codex_warden.Prelude.{
  ℕ, add64, String, Bool, true, false, Option, some, none, List, [], ◌∷◌, Result, ok, err,
}
use codex_warden.Protocol.Json.{Json, number, request as request_json, notification}
use codex_warden.Protocol.Frame
use codex_warden.Protocol.Frame.{IncomingFrame, parse}
use codex_warden.Protocol.Event.{from_frame}
use codex_warden.Transport.Drive.{rpc_id_discrete, handshaking, Connection}

-- Durations are in milliseconds.
pub record TransportConfig : Type 0 where
  pub socket_path : String
  pub connect_timeout : ℕ
  pub read_idle_timeout : ℕ
  pub request_timeout : ℕ
  pub retry_initial : ℕ
  pub retry_max : ℕ
  pub client_name : String
  pub client_version : String

-- `TransportConfig::default`, under the home directory, for the version of the package.
abbrev pub default_config : (home version : String) → TransportConfig
default_config home version = record {
  socket_path = append home "/.codex/app-server-control/app-server-control.sock";
  connect_timeout = 3000;
  read_idle_timeout = 30000;
  request_timeout = 15000;
  retry_initial = 100;
  retry_max = 5000;
  client_name = "codex-control";
  client_version = version;
}

-- What `timeout(…, socket.next())` yields: nothing in time, the end, an error, or a message with
-- what `message_json` makes of it, the clocks, and whether ingress is still there.
pub data Greeting (V : Type 0) : Type 0 where
  timed_out : Greeting V
  ended : Greeting V
  failed : String → Greeting V
  got : Result (Option V) String → (unix now : ℕ) (ingress : Bool) → Greeting V

-- One handshake: the errors of its two writes, and what the socket yields in between.
pub record Handshake (V : Type 0) : Type 0 where
  pub opening_error : Option String
  pub greetings : List (Greeting V)
  pub closing_error : Option String

-- How `initialize` ends; `waiting` while it still awaits a message.
pub data Greeted : Type 0 where
  initialized : Greeted
  refused : String → Greeted
  waiting : Greeted

module _ {V : Type 0} where
  -- Whether a frame answers `initialize`: with no error, or with one.
  unfoldable pub verdict : IncomingFrame V → Option Bool
  verdict (Frame.response id result none raw) = elim (rpc_id_discrete id (number 0)) [
    | yes _ ↦ some true
    | no _ ↦ none
  ]
  verdict (Frame.response id result (some error) raw) = elim (rpc_id_discrete id (number 0)) [
    | yes _ ↦ some false
    | no _ ↦ none
  ]
  verdict _ = none

module _ {V : Type 0} (j : Json V) (config : TransportConfig) where
  -- The event of a frame of the handshake.
  unfoldable pub admit : (unix now : ℕ) → IncomingFrame V → Connection V → Connection V
  admit unix now frame c =
      let seq = add64 c.sequence 1 in
      record c {
        sequence = seq;
        events = from_frame j unix seq now frame ∷ c.events;
        health = record (c.health) {
          phase = handshaking;
          last_frame_sequence = seq;
          detail = none;
        };
      }

  -- The loop of `initialize`.
  unfoldable pub greet : List (Greeting V) → Connection V → Connection V × Greeted
  unfolding admit verdict
  greet [] c = (c, waiting)
  greet (timed_out ∷ gs) c = (c, refused "initialize response timed out")
  greet (ended ∷ gs) c = (c, refused "socket closed during initialize")
  greet (failed error ∷ gs) c = (c, refused error)
  greet (got (err error) unix now ingress ∷ gs) c = (c, refused error)
  greet (got (ok none) unix now ingress ∷ gs) c = greet gs c
  greet (got (ok (some value)) unix now ingress ∷ gs) c = elim (parse j value) [
    | err error ↦ (c, refused error)
    | ok frame ↦
        let c' = admit unix now frame c in
        let rest = greet gs c' in
        elim ingress [
          | false ↦
              (record c { sequence = add64 c.sequence 1 }, refused "authoritative ingress closed")
          | true ↦ elim (verdict frame) [
            | some true ↦ (c', initialized)
            | some false ↦ (c', refused "initialize rejected")
            | none ↦ rest
          ]
        ]
  ]

  abbrev pub client_info : V
  client_info = j.object (
      (
        "clientInfo",
        j.object (
            ("name", j.text config.client_name)
            ∷ ("title", j.text "Codex Control")
            ∷ ("version", j.text config.client_version)
            ∷ []),
      )
      ∷ ("capabilities", j.object (("serverRequests", j.bool false) ∷ []))
      ∷ [])

  unfoldable pub initialize : Handshake V → Connection V → Connection V × Greeted
  unfolding greet
  initialize h c = elim h.opening_error [
    | some error ↦ (c, refused error)
    | none ↦
        let hello = request_json j (number 0) "initialize" client_info in
        let (c', greeted) = greet h.greetings (record c { frames = hello ∷ c.frames }) in
        elim greeted [
          | refused error ↦ (c', refused error)
          | waiting ↦ (c', waiting)
          | initialized ↦ elim h.closing_error [
            | some error ↦ (c', refused error)
            | none ↦ (
              record c' { frames = notification j "initialized" (j.object []) ∷ c'.frames },
              initialized,
            )
          ]
        ]
  ]
