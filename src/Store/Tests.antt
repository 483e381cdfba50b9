-- ===== src/Store/Tests.antt =====
-- Examples of the store.
use codex_warden.Prelude.{insert}
use codex_warden.Store.Events.{credit_thread}
use mathlib.Core.List.{Mem, mem-cons_self}
use mathlib.Core.Logic.{◌∨₁◌}
use codex_warden.Prelude.{
  All, ◌<◌, ◌-◌, ◌%◌, ◌≡◌, refl, arith, some, none, [], ◌∷◌, lookup, string_discrete,
}
use codex_warden.Store.Events.{
  StoreConfig, default_config, Inner, empty, push, remove_at, remove_nth,
}
use codex_warden.Store.Prune.{record_event, restricted_delta, shrink, over_limit, prune, expire}
use codex_warden.Store.Query.{query_sequence}
use codex_warden.Store.Accounting.{Accounts, empty-Accounts, push-Accounts}
use codex_warden.Store.Bounds.{IsBounded, Removals, record_event_ends}
use codex_warden.Store.Ledger.{Ledger, Covers}
use codex_warden.Store.Queries.{
  Recorded, start, record_one, Recorded-sound, IsReported, query_sequence_complete,
  query_all-hides_gap,
}
use codex_warden.Protocol.Event.{SequencedEvent}
use codex_warden.Store.Policy.{prune_evicts_oldest}
use codex_warden.Store.Retention.{record_event-Since, Since}
use codex_warden.Samples.{Value, started, spoken, completed, ten}

abbrev one : Inner Value
one = record { events = started ∷ []; bytes = 10; thread_bytes = ("t", 10) ∷ []; gaps = [] }

record_event_ends_example :
    (r : Inner Value) × (record_event ten default_config started empty ≡ some r)
    × Accounts ten r
    × IsBounded ten default_config r
    × Removals ten (push ten started empty) r
unfolding empty
record_event_ends_example =
    record_event_ends ten default_config started empty (empty-Accounts ten) (omega arith)

recorded : Recorded ten default_config (started ∷ []) one
unfolding record_event empty prune shrink expire push credit_thread insert lookup string_discrete
recorded = record_one started start (omega arith) refl refl

Recorded-sound_example : Accounts ten one × Ledger (started ∷ []) one
Recorded-sound_example = Recorded-sound ten default_config recorded

query_sequence_complete_example :
    Mem started (query_sequence (some "t") 0 none one).events
    ∨₁ IsReported (query_sequence (some "t") 0 none one).gap started
unfolding string_discrete
query_sequence_complete_example =
    query_sequence_complete ten default_config (started ∷ []) one started "t" 0 none recorded
      mem-cons_self refl refl

query_all-hides_gap_example :
    (query_sequence none 0 none (remove_at ten 0 one)).gap ≡ (query_sequence none 0 none one).gap
unfolding remove_nth
query_all-hides_gap_example =
    query_all-hides_gap ten default_config one 0 started [] "t" 0 none refl refl

-- Threads may hold fifteen bytes.
abbrev tight : StoreConfig
tight = record default_config { per_thread_bytes = 15 }

-- The oldest event is a lifecycle event of thread "a", thread "b" holds a delta, and thread "t" holds
-- twenty bytes without a delta.
abbrev oldest : SequencedEvent Value
oldest = record started { thread_id = some "a" }

abbrev chatter : SequencedEvent Value
chatter = record spoken { thread_id = some "b" }

abbrev later : SequencedEvent Value
later = record completed { sequence = 4 }

abbrev crowded : Inner Value
crowded = push ten later (push ten completed (push ten chatter (push ten oldest empty)))

crowded-Accounts : Accounts ten crowded
unfolding push empty
crowded-Accounts = push-Accounts ten later _ (omega arith) (
    push-Accounts ten completed _ (omega arith) (
      push-Accounts ten chatter _ (omega arith)
        (push-Accounts ten oldest empty (omega arith) (empty-Accounts ten))))

prune_evicts_oldest_example :
    (r : Inner Value) × (prune ten tight crowded ≡ some r)
    × All (λ d. 1 < d.sequence) r.events
    × Covers r.gaps oldest
unfolding push empty over_limit lookup string_discrete restricted_delta credit_thread insert
prune_evicts_oldest_example =
    prune_evicts_oldest ten tight crowded "t" oldest (chatter ∷ completed ∷ later ∷ [])
      crowded-Accounts refl (omega arith, (omega arith, (omega arith, tt))) (omega arith) refl refl

-- An anchor is stamped before the event ahead of it, and both are old when the next is recorded.
abbrev anchor : SequencedEvent Value
anchor = record completed { monotonic_ms = 0 }

abbrev next_day : SequencedEvent Value
next_day = record completed { sequence = 9; monotonic_ms = 700000 }

abbrev two : Inner Value
two = push ten anchor (push ten started empty)

two-Accounts : Accounts ten two
unfolding push empty
two-Accounts =
    push-Accounts ten anchor _ (omega arith)
      (push-Accounts ten started empty (omega arith) (empty-Accounts ten))

record_event-Since_example :
    (r : Inner Value) × (record_event ten default_config next_day two ≡ some r)
    × Since (700000 - default_config.retention % 18446744073709551616 - 1) r.events
unfolding push empty
record_event-Since_example =
    record_event-Since ten default_config 1 next_day two two-Accounts (omega arith)
      (omega arith, (omega arith, (omega arith, tt)))
