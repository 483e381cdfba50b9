-- ===== src/Ingest/Fanout.antt =====
-- One event at a time reaches the reducer, the store and the hub (`AuthoritativeIngress::run` of
-- src/ingest/src/lib.rs).
use codex_warden.Prelude.{
  ℕ, ◌+◌, ◌≤◌, ◌++◌, some, List, [], ◌∷◌, ◌≡◌, refl, ap, sym, ◌∙◌, arith, sum_by, filter,
  filter-append, u64_max, append_assoc, append-nil,
}
use codex_warden.Protocol.Json.{Json}
use codex_warden.Protocol.Frame.{Plane, lifecycle, delta, is_lifecycle, is_delta}
use codex_warden.Protocol.Event.{SequencedEvent}
use codex_warden.Reducer.Apply.{apply, run}
use codex_warden.Store.Events.{StoreConfig, Inner, push, remove_at, strike}
use codex_warden.Store.Bounds.{IsBounded, record_event_ends, Removals, here, next}
use codex_warden.Store.Accounting.{Accounts}
use codex_warden.Streaming.Hub.{EventHub, publish}
use codex_warden.Ingest.Ingress.{AuthoritativeIngress, process, run_ingress}

module _ {V : Type 0} (j : Json V) (encoded_len : SequencedEvent V → ℕ) (config : StoreConfig) where
  -- What ingress has come to, from `a` over the events `es`.
  pub record Fanned (es : List (SequencedEvent V)) (a b : AuthoritativeIngress V) : Type 0 where
    -- The reducer is the one that applied the events alone.
    pub reduced : b.reducer ≡ run j es a.reducer
    -- Each event is on the topic of its plane, once and in order.
    pub lifecycles :
        b.hub.lifecycle_topic ≡ a.hub.lifecycle_topic ++ filter (λ e. is_lifecycle e.plane) es
    pub deltas : b.hub.delta_topic ≡ a.hub.delta_topic ++ filter (λ e. is_delta e.plane) es
    pub counted : Accounts encoded_len b.store

  remove_at-bytes : (i : ℕ) (s : Inner V) → (remove_at encoded_len i s).bytes ≤ s.bytes
  unfolding remove_at strike
  remove_at-bytes i s = ground arith

  pub Removals-bytes : {s t : Inner V} → Removals encoded_len s t → t.bytes ≤ s.bytes
  Removals-bytes here = omega arith
  Removals-bytes {s} (next i r) = omega (arith, Removals-bytes r, remove_at-bytes i s)

  Fanned-trans :
      (e : SequencedEvent V) (es : List (SequencedEvent V)) (a b c : AuthoritativeIngress V)
      → Fanned (e ∷ []) a b
      → Fanned es b c
      → Fanned (e ∷ es) a c
  unfolding run
  Fanned-trans e es a b c p q = record {
    reduced = q.reduced ∙ ap (run j es) p.reduced;
    lifecycles =
        rw (q.lifecycles, p.lifecycles)
          (append_assoc a.hub.lifecycle_topic (filter (λ e. is_lifecycle e.plane) (e ∷ []))
              (filter (λ e. is_lifecycle e.plane) es)
            ∙ ap (λ l. a.hub.lifecycle_topic ++ l)
                (sym (filter-append (λ (e : SequencedEvent V). is_lifecycle e.plane) (e ∷ []) es)));
    deltas =
        rw (q.deltas, p.deltas)
          (append_assoc a.hub.delta_topic (filter (λ e. is_delta e.plane) (e ∷ []))
              (filter (λ e. is_delta e.plane) es)
            ∙ ap (λ l. a.hub.delta_topic ++ l)
                (sym (filter-append (λ (e : SequencedEvent V). is_delta e.plane) (e ∷ []) es)));
    counted = q.counted;
  }

  publish-topics :
      (e : SequencedEvent V) (hub : EventHub V)
      → ((publish e hub).lifecycle_topic
          ≡ hub.lifecycle_topic ++ filter (λ e. is_lifecycle e.plane) (e ∷ []))
        × ((publish e hub).delta_topic ≡ hub.delta_topic ++ filter (λ e. is_delta e.plane) (e ∷ []))
  unfolding publish
  publish-topics e hub = go e.plane refl
    where
      go :
          (p : Plane)
          → e.plane ≡ p
          → ((publish e hub).lifecycle_topic
              ≡ hub.lifecycle_topic ++ filter (λ e. is_lifecycle e.plane) (e ∷ []))
            × ((publish e hub).delta_topic
                ≡ hub.delta_topic ++ filter (λ e. is_delta e.plane) (e ∷ []))
      go lifecycle q = simp (q, publish) (refl, sym (append-nil _))
      go delta q = simp (q, publish) (sym (append-nil _), refl)

  -- One event.
  process-Fanned :
      (e : SequencedEvent V) (a : AuthoritativeIngress V)
      → Accounts encoded_len a.store
      → a.store.bytes + encoded_len e ≤ u64_max
      → (b : AuthoritativeIngress V) × (process j encoded_len config e a ≡ some b)
        × Fanned (e ∷ []) a b
        × IsBounded encoded_len config b.store
        × (b.store.bytes ≤ a.store.bytes + encoded_len e)
  unfolding process push publish run
  process-Fanned e a counted room =
      let (s, found, counted', bound, gone) =
        record_event_ends encoded_len config e a.store counted room in
      let less = Removals-bytes gone in
      (
        record {
          reducer = (apply j e a.reducer).0;
          store = s;
          hub = publish e a.hub;
          delivered = a.delivered ++ (apply j e a.reducer).1;
        },
        rw (found, process) refl,
        record {
          reduced = refl;
          lifecycles = (publish-topics e a.hub).0;
          deltas = (publish-topics e a.hub).1;
          counted = counted';
        },
        bound,
        omega (arith, less),
      )

  -- Ingress keeps up with any finite run of events: each is recorded, and the store is within its
  -- limits afterwards.
  pub run_ingress_lem :
      (es : List (SequencedEvent V)) (a : AuthoritativeIngress V)
      → Accounts encoded_len a.store
      → IsBounded encoded_len config a.store
      → a.store.bytes + sum_by encoded_len es ≤ u64_max
      → (b : AuthoritativeIngress V) × (run_ingress j encoded_len config es a ≡ some b)
        × Fanned es a b
        × IsBounded encoded_len config b.store
  unfolding run_ingress run
  run_ingress_lem [] a counted bound room = (
    a,
    refl,
    record {
      reduced = refl;
      lifecycles = sym (append-nil _);
      deltas = sym (append-nil _);
      counted = counted;
    },
    bound,
  )
  run_ingress_lem (e ∷ es) a counted bound room =
      let (b, found, fan, bound', less) = process-Fanned e a counted (omega (arith, room)) in
      let (c, found', fan', bound'') =
        run_ingress_lem es b fan.counted bound' (omega (arith, room, less)) in
      (c, rw (found, run_ingress) found', Fanned-trans e es a b c fan fan', bound'')
