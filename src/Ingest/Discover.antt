-- ===== src/Ingest/Discover.antt =====
-- `discover` and `handle_signal` (src/ingest/src/lib.rs).
use codex_warden.Prelude.{
  ℕ, zero, suc, ◌+◌, String, Bool, true, false, Option, some, none, List, [], ◌∷◌, ◌&&◌, ltb, leb,
  count, opt_eq, and_then, is_some_and, if◌then◌else◌, ok, err, lookup, insert, string_discrete,
}
use codex_warden.Protocol.Json.{Json}
use codex_warden.Protocol.Frame
use codex_warden.Protocol.Event.{SequencedEvent, method}
use codex_warden.Reducer.State.{
  begin_subscription, finish_subscription, cancel_subscription, reconcile_thread, last_open_turn,
  status_text,
}
use codex_warden.Store.Events.{StoreConfig}
use codex_warden.Store.Prune.{record_reconstructed_active_turn}
use codex_warden.Transport.Request.{not_written, rejected, Reply, error_text}
use codex_warden.Ingest.World.{
  IngestConfig, DiscoverySource, thread_started, activation_status, SubscriptionState, subscribing,
  retry_wait, DiscoveryOutcome, already_managed, World, set_state, reduce, meddle, call,
  is_ephemeral_error,
}

-- The states that count against the cap.
abbrev pub is_retained : SubscriptionState → Bool
is_retained SubscriptionState.subscribed = true
is_retained (subscribing _ _) = true
is_retained (retry_wait _) = true
is_retained _ = false

abbrev pub retained : List (String × SubscriptionState) → ℕ
retained = count (λ e. is_retained e.1)

pub data Claim : Type 0 where
  refused : DiscoveryOutcome → Claim
  claimed : Claim

-- The part of `discover` under the lock of the states.
unfoldable pub claim :
    ℕ
    → String
    → DiscoverySource
    → List (String × SubscriptionState)
    → List (String × SubscriptionState) × Claim
claim cap id source states =
    if is_some_and (lookup string_discrete id states) is_retained
    then (states, refused already_managed)
    else if leb cap (retained states)
    then (
      insert string_discrete id SubscriptionState.capacity_degraded states,
      refused DiscoveryOutcome.capacity_degraded,
    )
    else (insert string_discrete id (subscribing source 1) states, claimed)

-- How the loop of `discover` ends. `out_of_rounds` is the model's own.
pub data Resumption : Type 0 where
  resumed : Resumption
  gave_up : DiscoveryOutcome → Resumption
  out_of_rounds : Resumption

-- `in_flight_turn_id`: the search of the reducer's own reconciliation, once more.
abbrev pub in_flight_turn_id : {V : Type 0} → Json V → V → Option String
in_flight_turn_id j thread = last_open_turn j thread

module _ {V : Type 0} (j : Json V) (config : IngestConfig) where
  -- The arms of the loop's `match`: to end it, or to wait and try again.
  pub data Arm : Type 0 where
    done : Arm
    again : Arm
    fail : SubscriptionState → DiscoveryOutcome → Arm

  unfoldable pub resume_arm : ℕ → Reply V → Arm
  resume_arm attempt (ok _) = done
  resume_arm attempt (err (not_written detail)) =
      if ltb attempt config.resume_retry_limit
      then again
      else fail (SubscriptionState.failed (error_text j (not_written detail)))
          (DiscoveryOutcome.failed (error_text j (not_written detail)))
  resume_arm attempt (err (rejected m error)) =
      if is_ephemeral_error j error
      then (if ltb attempt config.resume_retry_limit
          then again
          else fail SubscriptionState.ephemeral DiscoveryOutcome.ephemeral)
      else fail (SubscriptionState.failed (error_text j (rejected m error)))
          (DiscoveryOutcome.failed (error_text j (rejected m error)))
  resume_arm attempt (err other) =
      fail (SubscriptionState.failed (error_text j other))
        (DiscoveryOutcome.failed (error_text j other))

  abbrev pub resume_params : String → V
  resume_params id = j.object (("threadId", j.text id) ∷ [])

  unfoldable pub resume : ℕ → ℕ → String → DiscoverySource → World V → World V × Resumption
  unfolding resume_arm
  resume zero attempt id source w = (w, out_of_rounds)
  resume (suc fuel) attempt id source w =
      let (w1, reply, asleep) = call j "thread/resume" (resume_params id) w in
      elim (resume_arm attempt reply) [
        | done ↦ (w1, resumed)
        | again ↦
            let waiting = set_state id (retry_wait (attempt + 1)) w1 in
            let woken = meddle j asleep waiting in
            resume fuel (attempt + 1) id source
              (set_state id (subscribing source (attempt + 1)) woken)
        | fail state outcome ↦
            (reduce (cancel_subscription id) (set_state id state w1), gave_up outcome)
      ]

  -- The read that follows, with the anchor of a turn in flight. `none` is a panic, or a store whose
  -- pruning does not end.
  unfoldable pub adopt_read :
      (encoded_len : SequencedEvent V → ℕ)
      → StoreConfig
      → String
      → Reply V
      → World V
      → Option (World V)
  adopt_read encoded_len store_config id (err _) w = some w
  adopt_read encoded_len store_config id (ok response) w = elim (j.get response "thread") [
    | none ↦ some w
    | some thread ↦
        let w' = reduce (reconcile_thread j thread) w in
        elim (in_flight_turn_id j thread) [
          | none ↦ some w'
          | some turn_id ↦ elim w.store [
            | none ↦ some w'
            | some store ↦
                elim (record_reconstructed_active_turn j encoded_len store_config w.now w.elapsed
                  w'.reducer.snapshot.at_sequence id turn_id store) [
                    | none ↦ none
                    | some (_, store') ↦ some (record w' { store = some store' })
                  ]
          ]
        ]
  ]

  abbrev pub read_params : String → V
  read_params id = j.object (("threadId", j.text id) ∷ ("includeTurns", j.bool true) ∷ [])

  module _ (encoded_len : SequencedEvent V → ℕ) (store_config : StoreConfig) where
    -- `none` as for `adopt_read`, or when `resume` runs out of rounds.
    unfoldable pub discover :
        String → DiscoverySource → World V → Option (World V × DiscoveryOutcome)
    unfolding claim
    discover id source w =
        let (states, granted) = claim config.subscription_cap id source w.states in
        let w0 : World V = record w { states = states } in
        elim granted [
          | refused outcome ↦ some (w0, outcome)
          | claimed ↦
              let (w1, end) =
                resume (suc config.resume_retry_limit) 1 id source
                  (reduce (begin_subscription id) w0) in
              elim end [
                | out_of_rounds ↦ none
                | gave_up outcome ↦ some (w1, outcome)
                | resumed ↦
                    let w2 =
                      set_state id SubscriptionState.subscribed
                        (reduce (finish_subscription id) w1) in
                    let (w3, read, _) = call j "thread/read" (read_params id) w2 in
                    elim (adopt_read encoded_len store_config id read w3) [
                      | none ↦ none
                      | some w4 ↦ some (w4, DiscoveryOutcome.subscribed)
                    ]
              ]
        ]

    -- `status_type` of the parameters of an event.
    abbrev pub status_type : SequencedEvent V → Option String
    status_type e =
        and_then (and_then (Frame.params e.frame) (λ p. j.get p "status")) (status_text j)

    -- The source that a signal stands for.
    unfoldable pub signal_source : SequencedEvent V → Option DiscoverySource
    signal_source e =
        if opt_eq (method e) (some "thread/started")
        then some thread_started
        else if opt_eq (method e) (some "thread/status/changed")
            && opt_eq (status_type e) (some "active")
        then some activation_status
        else none

    -- The outcome is `none` where the event is no signal.
    unfoldable pub handle_signal :
        SequencedEvent V → World V → Option (World V × Option DiscoveryOutcome)
    unfolding discover signal_source
    handle_signal e w = elim e.thread_id [
      | none ↦ some (w, none)
      | some id ↦ elim (signal_source e) [
        | none ↦ some (w, none)
        | some source ↦ elim (discover id source w) [
          | none ↦ none
          | some (w', outcome) ↦ some (w', some outcome)
        ]
      ]
    ]
