-- ===== src/Store/Query.antt =====
-- `query_sequence` and `query_time` (src/store/src/lib.rs).
use codex_warden.Prelude.{
  ℕ, ◌%◌, String, Bool, Option, some, List, ltb, leb, filter, is_none_or, unwrap_or, ◌&&◌, opt_eq,
  sat_add64, lookup, opt_string_discrete,
}
use codex_warden.Protocol.Event.{SequencedEvent}
use codex_warden.Store.Events.{StoreConfig, RetentionGap, Inner}

pub record QueryResult (V : Type 0) : Type 0 where
  pub events : List (SequencedEvent V)
  pub gap : Option RetentionGap

module _ {V : Type 0} where
  abbrev pub of_thread : Option String → SequencedEvent V → Bool
  of_thread thread_id e = is_none_or thread_id (λ t. opt_eq e.thread_id (some t))

  abbrev pub in_sequence : Option String → ℕ → Option ℕ → SequencedEvent V → Bool
  in_sequence thread_id after through e =
      ltb after e.sequence && is_none_or through (leb e.sequence) && of_thread thread_id e

  unfoldable pub query_sequence : Option String → ℕ → Option ℕ → Inner V → QueryResult V
  query_sequence thread_id after through s = record {
    events = filter (in_sequence thread_id after through) s.events;
    gap = lookup opt_string_discrete thread_id s.gaps;
  }

  abbrev pub in_time : StoreConfig → Option String → ℕ → ℕ → SequencedEvent V → Bool
  in_time config thread_id start end e =
      let tolerance = config.emitted_at_tolerance % 18446744073709551616 in
      let timestamp = unwrap_or e.emitted_at_ms e.unix_receipt_ms in
      leb start (sat_add64 timestamp tolerance)
      && leb timestamp (sat_add64 end tolerance)
      && of_thread thread_id e

  unfoldable pub query_time : StoreConfig → Option String → ℕ → ℕ → Inner V → QueryResult V
  query_time config thread_id start end s = record {
    events = filter (in_time config thread_id start end) s.events;
    gap = lookup opt_string_discrete thread_id s.gaps;
  }
