-- ===== src/Protocol/Frame.antt =====
-- `IncomingFrame` and its classification (src/protocol/src/lib.rs).
use codex_warden.Prelude.{
  ℕ, String, Bool, true, false, Option, some, none, ◌==◌, ◌&&◌, ◌||◌, not, contains, starts_with,
  ends_with, or_else, and_then, unwrap_or, Result, ok, err, ◌>>=◌, if◌then◌else◌,
}
use codex_warden.Protocol.Json.{Json, RpcId, get_str, get_str_at}

pub data Plane : Type 0 where
  lifecycle delta : Plane

abbrev pub is_lifecycle : Plane → Bool
is_lifecycle lifecycle = true
is_lifecycle delta = false

abbrev pub is_delta : Plane → Bool
is_delta lifecycle = false
is_delta delta = true

pub data KnownMessage : Type 0 where
  thread_started thread_status_changed turn_started turn_completed turn_diff_updated : KnownMessage
  item_lifecycle reviewer_request : KnownMessage

unfoldable pub classify : String → Option KnownMessage
classify m =
    if m == "thread/started"
    then some thread_started
    else if m == "thread/status/changed"
    then some thread_status_changed
    else if m == "turn/started"
    then some turn_started
    else if m == "turn/completed"
    then some turn_completed
    else if m == "turn/diff/updated"
    then some turn_diff_updated
    else if starts_with m "item/" && not (contains m "delta")
    then some item_lifecycle
    else if contains m "approval" || contains m "requestUserInput"
    then some reviewer_request
    else none

unfoldable pub plane_for_method : String → Plane
plane_for_method m =
    if contains m "delta" || ends_with m "/updated" || contains m "output" then delta else lifecycle

pub data IncomingFrame (V : Type 0) : Type 0 where
  response : (id : RpcId) (result error : Option V) (raw : V) → IncomingFrame V
  notification :
      (method : String) (params : V) (known : Option KnownMessage) (raw : V) → IncomingFrame V
  server_request :
      (id : RpcId) (method : String) (params : V) (known : Option KnownMessage) (raw : V)
      → IncomingFrame V

module _ {V : Type 0} where
  unfoldable pub raw : IncomingFrame V → V
  raw (response _ _ _ v) = v
  raw (notification _ _ _ v) = v
  raw (server_request _ _ _ _ v) = v

  unfoldable pub method : IncomingFrame V → Option String
  method (response _ _ _ _) = none
  method (notification m _ _ _) = some m
  method (server_request _ m _ _ _) = some m

  unfoldable pub params : IncomingFrame V → Option V
  params (response _ _ _ _) = none
  params (notification _ p _ _) = some p
  params (server_request _ _ p _ _) = some p

  unfoldable pub is_server_request : IncomingFrame V → Bool
  is_server_request (server_request _ _ _ _ _) = true
  is_server_request _ = false

module _ {V : Type 0} (j : Json V) where
  -- `serde_json::from_value(id).map_err(…)?`.
  unfoldable pub rpc_id_or : String → V → Result RpcId String
  rpc_id_or error v = elim (j.to_rpc_id v) [ none ↦ err error | some id ↦ ok id ]

  -- The cases of the `match` on the id and the method.
  unfoldable pub parse_as : V → Option V → Option String → Result (IncomingFrame V) String
  unfolding rpc_id_or
  parse_as v (some id) (some m) = do
    rpc_id ← rpc_id_or "invalid request id" id
    ok (server_request rpc_id m (unwrap_or (j.get v "params") j.null) (classify m) v)
  parse_as v none (some m) =
      ok (notification m (unwrap_or (j.get v "params") j.null) (classify m) v)
  parse_as v (some id) none = do
    rpc_id ← rpc_id_or "invalid response id" id
    ok (response rpc_id (j.get v "result") (j.get v "error") v)
  parse_as v none none = err "frame has neither method nor id"

  unfoldable pub parse : V → Result (IncomingFrame V) String
  unfolding parse_as
  parse v = parse_as v (j.get v "id") (get_str j v "method")

  unfoldable pub extract_thread_id : V → Option String
  extract_thread_id value =
      or_else (or_else (get_str j value "threadId") (get_str_at j value "thread" "id"))
        (get_str_at j value "turn" "threadId")

  unfoldable pub extract_turn_id : V → Option String
  extract_turn_id value = or_else (get_str j value "turnId") (get_str_at j value "turn" "id")

  unfoldable pub extract_emitted_at_ms : V → Option ℕ
  extract_emitted_at_ms value =
      and_then (or_else (j.get value "emittedAtMs") (j.get value "emitted_at_ms")) j.as_u64
