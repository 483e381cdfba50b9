-- ===== src/Core/Answers.antt =====
-- From the socket to a query: what the transport hands to ingress, a consumer's query accounts for
-- (`CodexControl::run` and `Handle::query_sequence` of src/core/src/lib.rs).
use mathlib.Core.List.{Mem}
use mathlib.Core.Logic.{◌∨₁◌}
use codex_warden.Prelude.{
  ℕ, ◌+◌, ◌≤◌, String, true, Option, some, List, [], ◌∷◌, ◌++◌, ◌≡◌, refl, sym, ap, subst, ◌∙◌,
  arith, sum_by, filter, reverse, u64_max, map, append-nil, append_assoc,
}
use codex_warden.Protocol.Json.{Json}
use codex_warden.Protocol.Event.{SequencedEvent}
use codex_warden.Reducer.Apply.{apply}
use codex_warden.Store.Events.{StoreConfig, push}
use codex_warden.Streaming.Hub.{publish}
use codex_warden.Store.Query.{in_sequence}
use codex_warden.Store.Bounds.{record_event_ends}
use codex_warden.Store.Queries.{
  Recorded, record_one, Recorded-sound, IsReported, query_sequence_complete,
}
use codex_warden.Transport.Handshake.{TransportConfig}
use codex_warden.Transport.Reconnect.{Attempt}
use codex_warden.Ingest.Ingress.{AuthoritativeIngress, process, run_ingress}
use codex_warden.Ingest.Fanout.{Removals-bytes}
use codex_warden.Core.Ingress.{arrives, is_signal, ingress_task, ingress_task_lem}
use codex_warden.Core.Delivery.{handed}
use codex_warden.Core.Service.{Service, query_sequence}

module _ {V : Type 0} (j : Json V) (encoded_len : SequencedEvent V → ℕ) (config : StoreConfig) where
  -- Ingress records what it gets through.
  run_ingress-Recorded :
      (es past : List (SequencedEvent V)) (a : AuthoritativeIngress V)
      → Recorded encoded_len config past a.store
      → a.store.bytes + sum_by encoded_len es ≤ u64_max
      → (b : AuthoritativeIngress V) × (run_ingress j encoded_len config es a ≡ some b)
        × Recorded encoded_len config (past ++ es) b.store
  unfolding run_ingress process push
  run_ingress-Recorded [] past a h room =
      (a, refl, subst (λ l. Recorded encoded_len config l a.store) (sym (append-nil past)) h)
  run_ingress-Recorded (e ∷ es) past a h room =
      let (s, found, counted, bound, gone) =
        record_event_ends encoded_len config e a.store (Recorded-sound encoded_len config h).0
          (omega arith) in
      let b : AuthoritativeIngress V = record {
        reducer = (apply j e a.reducer).0;
        store = s;
        hub = publish e a.hub;
        delivered = a.delivered ++ (apply j e a.reducer).1;
      } in
      let (c, rest, recorded) =
        run_ingress-Recorded es (past ++ e ∷ []) b (record_one e h (omega arith) found refl)
          (omega (arith, Removals-bytes j encoded_len config gone)) in
      (
        c,
        rw (found, run_ingress) rest,
        subst (λ l. Recorded encoded_len config l c.store) (append_assoc past (e ∷ []) es) recorded,
      )

  -- The ingress task gets through whatever the transport hands it over any number of connections,
  -- and then every event of a thread, handed over now or recorded before, that a consumer asks for by
  -- its number is in the answer of the handle, or the answer's gap reaches up to it. The events'
  -- bytes fit in 64 bits.
  pub delivered_query :
      (transport : TransportConfig) (show_idle : ℕ → String) (attempts : List (Attempt V))
      (past : List (SequencedEvent V)) (a : AuthoritativeIngress V) (e : SequencedEvent V)
      (t : String) (after : ℕ) (through : Option ℕ) (s : Service V)
      → Recorded encoded_len config past a.store
      → a.store.bytes + sum_by encoded_len (handed j transport show_idle attempts) ≤ u64_max
      → Mem e (past ++ handed j transport show_idle attempts)
      → e.thread_id ≡ some t
      → in_sequence (some t) after through e ≡ true
      → let given = handed j transport show_idle attempts in
        (b : AuthoritativeIngress V) × (ingress_task j encoded_len config (map arrives given) a []
          ≡ some (b, reverse (filter is_signal given)))
        × (let answer = query_sequence (some t) after through (record s { store = b.store }) in
            Mem e answer.events ∨₁ IsReported answer.gap e)
  unfolding query_sequence
  delivered_query transport show_idle attempts past a e t after through s h room m thread asked =
      let given = handed j transport show_idle attempts in
      let (b, found, recorded) = run_ingress-Recorded given past a h room in
      (
        b,
        ingress_task_lem j encoded_len config given a b [] found
            ∙ ap (λ l. some (b, l)) (append-nil (reverse (filter is_signal given))),
        query_sequence_complete encoded_len config (past ++ given) b.store e t after through
            recorded m thread asked,
      )
