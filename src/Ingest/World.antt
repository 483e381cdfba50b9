-- ===== src/Ingest/World.antt =====
-- The ingestor's configuration and state, and one request of its client (src/ingest/src/lib.rs).
use codex_warden.Prelude.{
  ℕ, String, Bool, false, Option, List, [], ◌∷◌, ◌||◌, contains, or_else, and_then, unwrap_or,
  lookup, insert, string_discrete, err,
}
use codex_warden.Protocol.Json.{Json}
use codex_warden.Protocol.Event.{SequencedEvent}
use codex_warden.Reducer.State.{ReducerState, apply_state}
use codex_warden.Store.Events.{Inner}
use codex_warden.Transport.Request.{RequestError, closed, Reply}

-- Durations are in milliseconds.
pub record IngestConfig : Type 0 where
  pub reconcile_page_size : ℕ
  pub reconcile_page_bound : ℕ
  pub reconcile_candidate_limit : ℕ
  pub subscription_cap : ℕ
  pub resume_retry_limit : ℕ
  pub retry_delay : ℕ
  pub release_idle_subscriptions : Bool
  pub reactivation_verified : Bool

abbrev pub default_config : IngestConfig
default_config = record {
  reconcile_page_size = 50;
  reconcile_page_bound = 4;
  reconcile_candidate_limit = 200;
  subscription_cap = 512;
  resume_retry_limit = 8;
  retry_delay = 250;
  release_idle_subscriptions = false;
  reactivation_verified = false;
}

pub data DiscoverySource : Type 0 where
  thread_started activation_status reconciliation : DiscoverySource

pub data SubscriptionState : Type 0 where
  unseen : SubscriptionState
  subscribing : (source : DiscoverySource) (attempt : ℕ) → SubscriptionState
  subscribed : SubscriptionState
  retry_wait : (attempt : ℕ) → SubscriptionState
  ephemeral : SubscriptionState
  capacity_degraded : SubscriptionState
  released : SubscriptionState
  failed : String → SubscriptionState

pub data DiscoveryOutcome : Type 0 where
  subscribed already_managed ephemeral capacity_degraded : DiscoveryOutcome
  failed : String → DiscoveryOutcome

pub data IngestError (V : Type 0) : Type 0 where
  request : RequestError V → IngestError V
  malformed_list : IngestError V

-- What another task does while the ingestor awaits: ingress applies an event to the reducer's
-- state, another call alters that state, or another discovery writes the state of a thread.
pub data Meddling (V : Type 0) : Type 0 where
  ingests : SequencedEvent V → Meddling V
  alters : (ReducerState V → ReducerState V) → Meddling V
  writes : String → SubscriptionState → Meddling V

-- A reply of the daemon, with what other tasks do before it is there, and what they do during the
-- sleep that may follow it.
pub record Exchange (V : Type 0) : Type 0 where
  pub before : List (Meddling V)
  pub reply : Reply V
  pub asleep : List (Meddling V)

pub record World (V : Type 0) : Type 0 where
  pub reducer : ReducerState V
  pub states : List (String × SubscriptionState)
  pub watermark : ℕ
  pub reactivation_verified : Bool
  -- `None` until `with_store`.
  pub store : Option (Inner V)
  -- The clocks that the store reads.
  pub now : ℕ
  pub elapsed : ℕ
  -- The exchanges to come, and the requests made so far, the latest first.
  pub script : List (Exchange V)
  pub sent : List (String × V)

abbrev pub set_state : {V : Type 0} → String → SubscriptionState → World V → World V
set_state id state w = record w { states = insert string_discrete id state w.states }

abbrev pub reduce : {V : Type 0} → (ReducerState V → ReducerState V) → World V → World V
reduce f w = record w { reducer = f w.reducer }

-- `ThreadIngestor::state`.
abbrev pub state_of : {V : Type 0} → String → World V → SubscriptionState
state_of id w = unwrap_or (lookup string_discrete id w.states) unseen

module _ {V : Type 0} (j : Json V) where
  unfoldable pub meddle : List (Meddling V) → World V → World V
  meddle [] w = w
  meddle (ingests e ∷ ms) w = meddle ms (reduce (apply_state j e) w)
  meddle (alters f ∷ ms) w = meddle ms (reduce f w)
  meddle (writes id state ∷ ms) w = meddle ms (set_state id state w)

  -- One request: the reply, what others do during the sleep after it, and the world at the reply.
  -- A script that is used up stands for a transport that is gone.
  unfoldable pub call : String → V → World V → World V × Reply V × List (Meddling V)
  unfolding meddle
  call method params w =
      let w' : World V = record w { sent = (method, params) ∷ w.sent } in
      elim w.script [
        | [] ↦ (w', err closed, [])
        | x ∷ rest ↦ (meddle x.before (record w' { script = rest }), x.reply, x.asleep)
      ]

  unfoldable pub is_ephemeral_error : V → Bool
  is_ephemeral_error error =
      let text = j.to_ascii_lowercase (j.display error) in
      contains text "ephemeral" || contains text "rollout" || contains text "not found"

  unfoldable pub numeric_timestamp : Option V → Option ℕ
  numeric_timestamp value =
      and_then value (λ v. or_else (j.as_u64 v) (and_then (j.as_str v) j.parse_u64))
