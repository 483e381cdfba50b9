-- ===== src/Ingest/Ingress.antt =====
-- `AuthoritativeIngress` (src/ingest/src/lib.rs).
use codex_warden.Prelude.{ℕ, ◌++◌, Option, some, none, List, [], ◌∷◌}
use codex_warden.Protocol.Json.{Json}
use codex_warden.Protocol.Event.{SequencedEvent}
use codex_warden.Reducer.Apply.{Reducer, apply}
use codex_warden.Store.Events.{StoreConfig, Inner}
use codex_warden.Store.Prune.{record_event}
use codex_warden.Streaming.Hub.{EventHub, publish}

pub record AuthoritativeIngress (V : Type 0) : Type 0 where
  pub reducer : Reducer V
  pub store : Inner V
  pub hub : EventHub V
  -- What the reducer has sent to its waiters.
  pub delivered : List (ℕ × SequencedEvent V)

module _ {V : Type 0} (j : Json V) (encoded_len : SequencedEvent V → ℕ) (config : StoreConfig) where
  -- `none` stands for a store whose pruning does not end.
  unfoldable pub process :
      SequencedEvent V → AuthoritativeIngress V → Option (AuthoritativeIngress V)
  process e a =
      let (reducer, sends) = apply j e a.reducer in
      elim (record_event encoded_len config e a.store) [
        | none ↦ none
        | some store ↦ some (record {
          reducer = reducer;
          store = store;
          hub = publish e a.hub;
          delivered = a.delivered ++ sends;
        })
      ]

  -- `run` over the events that the channel yields.
  unfoldable pub run_ingress :
      List (SequencedEvent V) → AuthoritativeIngress V → Option (AuthoritativeIngress V)
  unfolding process
  run_ingress [] a = some a
  run_ingress (e ∷ es) a = elim (process e a) [ none ↦ none | some b ↦ run_ingress es b ]
