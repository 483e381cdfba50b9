-- ===== src/Store/Events.antt =====
-- The store's contents and the removal of one event (src/store/src/lib.rs). The length of an
-- event's JSON, which `serde_json` computes, is a parameter.
use codex_warden.Prelude.{
  ◌++◌, ℕ, zero, suc, ◌-◌, ◌*◌, max, String, Option, some, none, List, [], ◌∷◌, add64, unwrap_or,
  map_option, lookup, insert, string_discrete, opt_string_discrete,
}
use codex_warden.Protocol.Frame.{lifecycle, delta}
use codex_warden.Protocol.Event.{SequencedEvent}

-- Durations are in milliseconds.
pub record StoreConfig : Type 0 where
  pub retention : ℕ
  pub per_thread_bytes : ℕ
  pub global_bytes : ℕ
  pub emitted_at_tolerance : ℕ

abbrev pub mib : ℕ
mib = 1024 * 1024

abbrev pub default_config : StoreConfig
default_config = record {
  retention = 10 * 60 * 1000;
  per_thread_bytes = 8 * mib;
  global_bytes = 64 * mib;
  emitted_at_tolerance = 2 * 1000;
}

pub record RetentionGap : Type 0 where
  pub before_sequence : Option ℕ
  pub summarized_delta_events : ℕ
  pub evicted_lifecycle_events : ℕ

abbrev pub no_gap : RetentionGap
no_gap = record {
  before_sequence = none;
  summarized_delta_events = 0;
  evicted_lifecycle_events = 0;
}

pub record Inner (V : Type 0) : Type 0 where
  pub events : List (SequencedEvent V)
  pub bytes : ℕ
  pub thread_bytes : List (String × ℕ)
  pub gaps : List (Option String × RetentionGap)

-- `entry(thread).or_default()`.
abbrev pub thread_total : String → List (String × ℕ) → ℕ
thread_total t m = unwrap_or (lookup string_discrete t m) 0

abbrev pub gap_of : Option String → List (Option String × RetentionGap) → RetentionGap
gap_of k m = unwrap_or (lookup opt_string_discrete k m) no_gap

module _ {ℓ} {A : Type ℓ} where
  -- `VecDeque::remove`.
  unfoldable pub remove_nth : List A → ℕ → Option (A × List A)
  remove_nth [] i = none
  remove_nth (x ∷ xs) zero = some (x, xs)
  remove_nth (x ∷ xs) (suc i) = map_option (λ r. (r.0, x ∷ r.1)) (remove_nth xs i)

module _ {V : Type 0} where
  unfoldable pub empty : Inner V
  empty = record { events = []; bytes = 0; thread_bytes = []; gaps = [] }

  -- A gap that takes in one more event.
  unfoldable pub widen : SequencedEvent V → RetentionGap → RetentionGap
  widen event gap =
      let before : Option ℕ =
        some
          (unwrap_or (map_option (λ s. max s event.sequence) gap.before_sequence) event.sequence) in
      elim event.plane [
        | delta ↦ record gap {
          before_sequence = before;
          summarized_delta_events = add64 gap.summarized_delta_events 1;
        }
        | lifecycle ↦ record gap {
          before_sequence = before;
          evicted_lifecycle_events = add64 gap.evicted_lifecycle_events 1;
        }
      ]

unfoldable pub credit_thread : Option String → ℕ → List (String × ℕ) → List (String × ℕ)
credit_thread none size m = m
credit_thread (some t) size m = insert string_discrete t (add64 (thread_total t m) size) m

unfoldable pub debit_thread : Option String → ℕ → List (String × ℕ) → List (String × ℕ)
debit_thread none size m = m
debit_thread (some t) size m = insert string_discrete t (thread_total t m - size) m

module _ {V : Type 0} (encoded_len : SequencedEvent V → ℕ) where
  -- The books after `event` has left the deque.
  unfoldable pub strike : SequencedEvent V → List (SequencedEvent V) → Inner V → Inner V
  strike event rest s = record {
    events = rest;
    bytes = s.bytes - encoded_len event;
    thread_bytes = debit_thread event.thread_id (encoded_len event) s.thread_bytes;
    gaps =
        insert opt_string_discrete event.thread_id (widen event (gap_of event.thread_id s.gaps))
          s.gaps;
  }

  unfoldable pub remove_at : ℕ → Inner V → Inner V
  remove_at position s = elim (remove_nth s.events position) [
    | none ↦ s
    | some (event, rest) ↦ strike event rest s
  ]

  -- The books after `event` has joined the deque.
  unfoldable pub push : SequencedEvent V → Inner V → Inner V
  push event s = record s {
    events = s.events ++ event ∷ [];
    bytes = add64 s.bytes (encoded_len event);
    thread_bytes = credit_thread event.thread_id (encoded_len event) s.thread_bytes;
  }
