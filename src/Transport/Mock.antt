-- ===== src/Transport/Mock.antt =====
-- The mock app server: its state, what the tests set, and its answers to requests
-- (src/transport/src/mock.rs).
pub mod Serve
pub mod Exchange
pub mod Greeting
mod Tests
use Prim.Native.String.{◌++◌ as append}
use codex_warden.Prelude.{
  ℕ, ◌+◌, ◌-◌, add64, String, Bool, true, false, Option, some, none, List, [], ◌∷◌, map, ltb, leb,
  ◌==◌, lookup, insert, string_discrete, and_then, unwrap_or, if◌then◌else◌, ◌&&◌,
}
use codex_warden.Protocol.Json.{Json, get_str}

pub data Fault : Type 0 where
  no_fault : Fault
  disconnect_on_method : (target : String) → Fault
  half_open : Fault
  interrupt_completion_before_response : Fault

pub record MockThread : Type 0 where
  pub id : String
  pub status : String
  pub turn_id : Option String
  pub ephemeral : Bool
  pub updated_at : ℕ

-- The state under the lock, and the values sent on `outgoing`, the latest first. What was received
-- is the latest first too. The threads are a list with a key for each, in place of a hash map, whose
-- order is not known.
pub record MockState (V : Type 0) : Type 0 where
  pub fault : Fault
  pub threads : List (String × MockThread)
  pub received : List V
  pub responses_to_server_requests : ℕ
  pub next_server_id : ℕ
  pub resume_failures_remaining : ℕ
  pub outgoing : List V

-- The thread that a read of an unknown id gives.
abbrev pub idle_thread : String → MockThread
idle_thread id = record {
  id = id;
  status = "idle";
  turn_id = none;
  ephemeral = false;
  updated_at = 0;
}

-- `sort_by_key` with `Reverse(updated_at)`: a stable sort, the latest update first.
unfoldable pub insert_by_update : MockThread → List MockThread → List MockThread
insert_by_update t [] = t ∷ []
insert_by_update t (u ∷ us) =
    let rest = insert_by_update t us in
    if leb u.updated_at t.updated_at then t ∷ u ∷ us else u ∷ rest

unfoldable pub sort_by_update : List MockThread → List MockThread
unfolding insert_by_update
sort_by_update [] = []
sort_by_update (t ∷ ts) = insert_by_update t (sort_by_update ts)

module _ {V : Type 0} where
  -- The state that `MockAppServer::start` makes.
  abbrev pub start_state : MockState V
  start_state = record {
    fault = no_fault;
    threads = [];
    received = [];
    responses_to_server_requests = 0;
    next_server_id = 9000;
    resume_failures_remaining = 0;
    outgoing = [];
  }

  abbrev pub add_thread : MockThread → MockState V → MockState V
  add_thread t s = record s { threads = insert string_discrete t.id t s.threads }

  abbrev pub set_resume_failures : ℕ → MockState V → MockState V
  set_resume_failures count s = record s { resume_failures_remaining = count }

  -- A resumption that is to fail.
  abbrev pub fails : MockState V → String → Bool
  fails s method = method == "thread/resume" && ltb 0 s.resume_failures_remaining

module _ {V : Type 0} (j : Json V) where
  abbrev pub set_fault : Fault → MockState V → MockState V
  set_fault fault s = record s { fault = fault; outgoing = j.null ∷ s.outgoing }

  -- A notification and a request of the server, with its id.
  abbrev pub notification_json : String → V → V
  notification_json method params =
      j.object (("jsonrpc", j.text "2.0") ∷ ("method", j.text method) ∷ ("params", params) ∷ [])

  unfoldable pub server_request_json : ℕ → String → V → V
  server_request_json id method params = j.object (
      ("jsonrpc", j.text "2.0")
      ∷ ("id", j.nat id)
      ∷ ("method", j.text method)
      ∷ ("params", params)
      ∷ [])

  abbrev pub emit_notification : String → V → MockState V → MockState V
  emit_notification method params s = record s {
    outgoing = notification_json method params ∷ s.outgoing;
  }

  unfoldable pub emit_server_request : String → V → MockState V → MockState V
  unfolding server_request_json
  emit_server_request method params s =
      let id = add64 s.next_server_id 1 in
      record s { next_server_id = id; outgoing = server_request_json id method params ∷ s.outgoing }

  -- `MockThread::json`.
  unfoldable pub turns_json : String → Option String → List V
  turns_json status (some id) = j.object (("id", j.text id) ∷ ("status", j.text status) ∷ []) ∷ []
  turns_json status none = []

  unfoldable pub thread_json : MockThread → V
  unfolding turns_json
  thread_json t = j.object (
      ("id", j.text t.id)
      ∷ ("status", j.object (("type", j.text t.status) ∷ []))
      ∷ ("turns", j.array (turns_json t.status t.turn_id))
      ∷ ("ephemeral", j.bool t.ephemeral)
      ∷ ("updatedAt", j.nat t.updated_at)
      ∷ [])

  -- `value[key]`.
  abbrev pub index : V → String → V
  index value key = unwrap_or (j.get value key) j.null

  -- The result of a request, by its method.
  unfoldable pub result_of : List (String × MockThread) → String → V → V
  unfolding sort_by_update thread_json
  result_of threads method params =
      let thread_id = unwrap_or (get_str j params "threadId") "" in
      let thread = unwrap_or (lookup string_discrete thread_id threads) (idle_thread thread_id) in
      let read = j.object (("thread", thread_json thread) ∷ []) in
      if method == "initialize"
      then j.object (
          ("serverInfo", j.object (("name", j.text "mock") ∷ ("version", j.text "0.144.6") ∷ []))
          ∷ [])
      else if method == "thread/list"
      then j.object (
          ("data", j.array (map thread_json (sort_by_update (map (λ e. e.1) threads))))
          ∷ ("nextCursor", j.null)
          ∷ [])
      else if method == "thread/read"
      then read
      else if method == "thread/resume"
      then read
      else if method == "thread/subscribe"
      then j.object (
          (
            "subscriptionId",
            j.text (append "sub-" (unwrap_or (j.as_str (index params "threadId")) "")),
          )
          ∷ [])
      else if method == "thread/unsubscribe"
      then j.object (("status", j.text "unsubscribed") ∷ [])
      else if method == "turn/interrupt"
      then j.object []
      else if method == "turn/start"
      then j.object (("turn", j.object (("id", j.text "mock-turn") ∷ [])) ∷ [])
      else if method == "turn/steer"
      then j.object (("turnId", index params "expectedTurnId") ∷ [])
      else j.object []

  unfoldable pub resume_error : V
  resume_error = j.object (("code", j.negative 32000) ∷ ("message", j.text "no rollout found") ∷ [])

  unfoldable pub response_json : V → (key : String) → V → V
  response_json id key value = j.object (("jsonrpc", j.text "2.0") ∷ ("id", id) ∷ (key, value) ∷ [])

  -- The answer to a request with an id.
  unfoldable pub respond : V → String → V → MockState V → MockState V × V
  unfolding result_of resume_error response_json
  respond id method params s =
      if fails s method
      then (
        record s { resume_failures_remaining = s.resume_failures_remaining - 1 },
        response_json id "error" resume_error,
      )
      else (s, response_json id "result" (result_of s.threads method params))

  unfoldable pub handle_request : V → MockState V → MockState V × Option V
  unfolding respond
  handle_request value s = elim (j.get value "id") [
    | none ↦ (s, none)
    | some id ↦ elim (get_str j value "method") [
      | none ↦ (s, none)
      | some method ↦ let (s', v) = respond id method (index value "params") s in (s', some v)
    ]
  ]
