-- ===== src/Control/Actions.antt =====
-- The controller (src/control/src/lib.rs). A `Session` is what the controller shares with the rest
-- of the program: the reducer, the counter of correlations, and the far side of the client, which is
-- a list of replies still to come, each with what other tasks do to the reducer until it is there.
-- The lock of the target's thread is held throughout an action, so that no other action of the
-- same thread is among those tasks.
use Prim.Native.String.{◌++◌ as append}
use codex_warden.Prelude.{
  ℕ, zero, suc, String, Bool, true, false, Option, some, none, List, [], ◌∷◌, ◌++◌, ◌==◌, opt_eq,
  ◌&&◌, ◌||◌, or_else, and_then, is_some_and, find, add64, if◌then◌else◌, ok, err, lookup,
  ℕ_discrete,
}
use codex_warden.Protocol.Json.{Json, get_str}
use codex_warden.Protocol.Event.{SequencedEvent, method}
use codex_warden.Reducer.Apply.{Reducer, register_waiter, apply}
use codex_warden.Transport.Request.{
  RequestError, not_written, written_outcome_unknown, timed_out, closed, Reply, error_text,
}

pub record ControlConfig : Type 0 where
  pub correlation_window : ℕ
  pub not_written_retries : ℕ
  pub retry_delay : ℕ

abbrev pub default_config : ControlConfig
default_config = record { correlation_window = 3000; not_written_retries = 2; retry_delay = 100 }

pub data ActionTarget : Type 0 where
  turn : (thread_id turn_id : String) → ActionTarget
  thread : (thread_id : String) → ActionTarget

pub record Evidence : Type 0 where
  pub action_correlation : ℕ
  pub rpc_accepted : Bool
  pub observed_sequence : Option ℕ
  pub observed_method : Option String
  pub note : String

pub data ActionOutcome (V : Type 0) : Type 0 where
  confirmed : (target : ActionTarget) (evidence : Evidence) → ActionOutcome V
  rejected : (target : ActionTarget) (reason : String) (rpc_error : Option V) → ActionOutcome V
  outcome_unknown : (target : ActionTarget) (evidence : Evidence) → ActionOutcome V

-- A reply of the daemon, behind the events that ingress applies until then.
pub record Exchange (V : Type 0) : Type 0 where
  pub meanwhile : List (SequencedEvent V)
  pub reply : Reply V

pub record Session (V : Type 0) : Type 0 where
  pub reducer : Reducer V
  pub next_correlation : ℕ
  -- The exchanges to come, and the requests made so far, the latest first.
  pub script : List (Exchange V)
  pub sent : List (String × V)
  -- What the reducer has sent to its waiters.
  pub delivered : List (ℕ × SequencedEvent V)

abbrev pub thread_of : ActionTarget → String
thread_of (turn thread_id turn_id) = thread_id
thread_of (thread thread_id) = thread_id

unfoldable pub observed : {V : Type 0} → ℕ → Bool → SequencedEvent V → String → Evidence
observed correlation rpc_accepted event note = record {
  action_correlation = correlation;
  rpc_accepted = rpc_accepted;
  observed_sequence = some event.sequence;
  observed_method = method event;
  note = note;
}

unfoldable pub unknown : ℕ → Bool → String → Evidence
unknown correlation rpc_accepted note = record {
  action_correlation = correlation;
  rpc_accepted = rpc_accepted;
  observed_sequence = none;
  observed_method = none;
  note = note;
}

abbrev pub ambiguous_steer : String
ambiguous_steer = "ambiguous steer cannot be uniquely confirmed and was not resent"

abbrev pub ambiguous_start : String
ambiguous_start =
    "write may have succeeded; reconciliation cannot distinguish a concurrent GUI start"

abbrev pub unattributed_start : String
unattributed_start =
    "daemon returned a unique created turn id; concurrent GUI starts are not attributed"

module _ {V : Type 0} (j : Json V) where
  -- Events that ingress applies to the reducer of a session.
  unfoldable pub ingest_events : List (SequencedEvent V) → Session V → Session V
  ingest_events [] s = s
  ingest_events (e ∷ es) s =
      let (r, sends) = apply j e s.reducer in
      ingest_events es (record s { reducer = r; delivered = s.delivered ++ sends })

  -- `request` and `request_action` of the client: one exchange. A script that is used up stands for
  -- a transport that is gone.
  unfoldable pub call : String → V → Session V → Session V × Reply V
  unfolding ingest_events
  call method params s =
      let s' : Session V = record s { sent = (method, params) ∷ s.sent } in
      elim s.script [
        | [] ↦ (s', err closed)
        | x ∷ rest ↦ (ingest_events x.meanwhile (record s' { script = rest }), x.reply)
      ]

  -- The loop of `send_not_written_safe`; `left` is the number of retries left.
  unfoldable pub send_not_written_safe : ℕ → String → V → Session V → Session V × Reply V
  unfolding call
  send_not_written_safe zero method params s = call method params s
  send_not_written_safe (suc left) method params s =
      let (s', reply) = call method params s in
      let again = send_not_written_safe left method params s' in
      elim reply [
        | ok v ↦ (s', ok v)
        | err e ↦ elim e [ not_written _ ↦ again | other ↦ (s', err other) ]
      ]

  -- What a waiter's channel has been sent, after the events of the correlation window. `none` is a
  -- timeout.
  abbrev pub await_waiter : ℕ → Session V → Option (SequencedEvent V)
  await_waiter channel s = lookup ℕ_discrete channel s.delivered

  abbrev pub is_terminal : String → Bool
  is_terminal status = status == "completed" || status == "failed" || status == "interrupted"

  -- The status of the target turn in a `thread/read` response.
  unfoldable pub is_turn_terminal : String → Reply V → Bool
  is_turn_terminal turn_id (err _) = false
  is_turn_terminal turn_id (ok value) =
      let turns = and_then (and_then (j.get value "thread") (λ t. j.get t "turns")) j.as_array in
      let target = and_then turns (find (λ t. j.field_is t "id" turn_id)) in
      is_some_and (and_then target (λ t. get_str j t "status")) is_terminal

  abbrev pub read_params : String → V
  read_params thread_id =
      j.object (("threadId", j.text thread_id) ∷ ("includeTurns", j.bool true) ∷ [])

  unfoldable pub reconcile_interrupt :
      String → String → ℕ → Bool → Session V → Session V × ActionOutcome V
  unfolding call is_turn_terminal
  reconcile_interrupt thread_id turn_id correlation rpc_accepted s =
      let (s', read) = call "thread/read" (read_params thread_id) s in
      let target = turn thread_id turn_id in
      (
        s',
        if is_turn_terminal turn_id read
            then confirmed target (
                unknown correlation rpc_accepted
                  "target turn is terminal on reconciliation; correlation is not causation")
            else outcome_unknown target
                (unknown correlation rpc_accepted "no unique terminal evidence for target turn"),
      )

module _ {V : Type 0} where
  -- `next_correlation.fetch_add(1)`.
  abbrev pub take_correlation : Session V → Session V × ℕ
  take_correlation s =
      (record s { next_correlation = add64 s.next_correlation 1 }, s.next_correlation)

  abbrev pub register : (SequencedEvent V → Bool) → Session V → Session V × ℕ
  register predicate s =
      let (r, channel) = register_waiter predicate s.reducer in (record s { reducer = r }, channel)

  unfoldable pub completes : String → String → SequencedEvent V → Bool
  completes thread_id turn_id e =
      opt_eq (method e) (some "turn/completed")
      && opt_eq e.thread_id (some thread_id)
      && opt_eq e.turn_id (some turn_id)

  unfoldable pub starts : String → SequencedEvent V → Bool
  starts thread_id e =
      opt_eq (method e) (some "turn/started") && opt_eq e.thread_id (some thread_id)

  -- The outcome of a `turn/start` that was answered, from the turn id of the response and from the
  -- event that was observed.
  unfoldable pub started_outcome :
      ActionTarget → ℕ → Option String → Option (SequencedEvent V) → ActionOutcome V
  started_outcome target correlation none event =
      outcome_unknown target (unknown correlation true "response lacked a unique turn id")
  started_outcome target correlation (some expected) (some event) =
      if opt_eq event.turn_id (some expected)
      then confirmed target
          (observed correlation true event "turn/started id matches the id returned by turn/start")
      else confirmed target (unknown correlation true unattributed_start)
  started_outcome target correlation (some expected) none =
      confirmed target (unknown correlation true unattributed_start)

module _ {V : Type 0} (j : Json V) where
  -- The turn id of a response to `turn/start`.
  unfoldable pub response_turn : V → Option String
  response_turn response =
      and_then
        (or_else (and_then (j.get response "turn") (λ v. j.get v "id")) (j.get response "turnId"))
        j.as_str

module _ {V : Type 0} (j : Json V) (config : ControlConfig) where
  -- The events that ingress applies within the correlation window are `window`.
  unfoldable pub interrupt :
      String → String → List (SequencedEvent V) → Session V → Session V × ActionOutcome V
  interrupt thread_id turn_id window s =
      let target = turn thread_id turn_id in
      let (s1, correlation) = take_correlation s in
      let (s2, channel) = register (completes thread_id turn_id) s1 in
      let params = j.object (("threadId", j.text thread_id) ∷ ("turnId", j.text turn_id) ∷ []) in
      let (s3, reply) =
        send_not_written_safe j config.not_written_retries "turn/interrupt" params s2 in
      elim reply [
        | ok _ ↦
            let s4 = ingest_events j window s3 in
            elim (await_waiter j channel s4) [
              | some event ↦ (
                s4,
                confirmed target (
                    observed correlation true event
                      "matching completion observed after interrupt; correlation is not proof of causation"),
              )
              | none ↦ reconcile_interrupt j thread_id turn_id correlation true s4
            ]
        | err e ↦ elim e [
          | RequestError.rejected _ error ↦
              (s3, ActionOutcome.rejected target "daemon rejected interrupt" (some error))
          | written_outcome_unknown _ _ _ ↦
              reconcile_interrupt j thread_id turn_id correlation false s3
          | timed_out _ ↦ reconcile_interrupt j thread_id turn_id correlation false s3
          | other ↦ (s3, ActionOutcome.rejected target (error_text j other) none)
        ]
      ]

  -- `rpc_response_action` with an expected turn, as `steer` calls it.
  unfoldable pub rpc_response_action :
      String → String → String → List V → Session V → Session V × ActionOutcome V
  rpc_response_action method thread_id turn_id input s =
      let target = turn thread_id turn_id in
      let (s1, correlation) = take_correlation s in
      let params = j.object (
        ("threadId", j.text thread_id)
        ∷ ("expectedTurnId", j.text turn_id)
        ∷ ("input", j.array input)
        ∷ []) in
      let (s2, reply) = send_not_written_safe j config.not_written_retries method params s1 in
      (
        s2,
        elim reply [
          | ok _ ↦
              confirmed target
                (unknown correlation true "daemon accepted the explicitly targeted request")
          | err e ↦ elim e [
            | RequestError.rejected _ error ↦
                ActionOutcome.rejected target (append "daemon rejected " method) (some error)
            | written_outcome_unknown _ _ _ ↦
                outcome_unknown target (unknown correlation false ambiguous_steer)
            | timed_out _ ↦ outcome_unknown target (unknown correlation false ambiguous_steer)
            | other ↦ ActionOutcome.rejected target (error_text j other) none
          ]
        ],
      )

  unfoldable pub steer : String → String → List V → Session V → Session V × ActionOutcome V
  unfolding rpc_response_action
  steer thread_id turn_id input s = rpc_response_action "turn/steer" thread_id turn_id input s

  unfoldable pub start :
      String → List V → List (SequencedEvent V) → Session V → Session V × ActionOutcome V
  unfolding started_outcome
  start thread_id input window s =
      let target = thread thread_id in
      let (s1, correlation) = take_correlation s in
      let (s2, channel) = register (starts thread_id) s1 in
      let params = j.object (("threadId", j.text thread_id) ∷ ("input", j.array input) ∷ []) in
      let (s3, reply) = send_not_written_safe j config.not_written_retries "turn/start" params s2 in
      elim reply [
        | ok response ↦
            let s4 = ingest_events j window s3 in
            (
              s4,
              started_outcome target correlation (response_turn j response)
                  (await_waiter j channel s4),
            )
        | err e ↦ elim e [
          | RequestError.rejected _ error ↦
              (s3, ActionOutcome.rejected target "daemon rejected turn/start" (some error))
          | written_outcome_unknown _ _ _ ↦
              (s3, outcome_unknown target (unknown correlation false ambiguous_start))
          | timed_out _ ↦ (s3, outcome_unknown target (unknown correlation false ambiguous_start))
          | other ↦ (s3, ActionOutcome.rejected target (error_text j other) none)
        ]
      ]
