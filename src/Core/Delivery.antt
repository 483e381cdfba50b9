-- ===== src/Core/Delivery.antt =====
-- From the socket to a replay: the transport's events go through ingress to the reducer, which
-- answers replays (`CodexControl::run` of src/core/src/lib.rs puts them together so).
use mathlib.Core.List.{reverse-cons}
use codex_warden.Prelude.{
  ℕ, ◌+◌, ◌≤◌, ◌<◌, some, List, [], ◌∷◌, ◌++◌, ◌⊎◌, ◌≡◌, arith, All, All-append, String, ap, ◌∙◌,
  sum_by, filter, ltb, first, reverse, u64_max, map, append-nil,
}
use codex_warden.Protocol.Json.{Json}
use codex_warden.Protocol.Event.{SequencedEvent}
use codex_warden.Reducer.Apply.{new, events_since, events, gap_too_old}
use codex_warden.Reducer.Replay.{Increasing, lifecycle_of, latest, events_since-honest}
use codex_warden.Store.Events.{StoreConfig}
use codex_warden.Store.Accounting.{Accounts}
use codex_warden.Store.Bounds.{IsBounded}
use codex_warden.Transport.Handshake.{TransportConfig}
use codex_warden.Transport.Reconnect.{Attempt, start_link, connection_loop}
use codex_warden.Transport.Ranking.{Ranked}
use codex_warden.Transport.Ranking.Attempts.{loads, connection_loop-Ranked}
use codex_warden.Ingest.Ingress.{AuthoritativeIngress}
use codex_warden.Core.Ingress.{arrives, is_signal, ingress_task, ingress_task_lem}
use codex_warden.Ingest.Fanout.{run_ingress_lem}

module _ {V : Type 0} where
  Increasing-snoc :
      (n m : ℕ) (es : List (SequencedEvent V)) (e : SequencedEvent V)
      → Increasing n es
      → All (λ d. d.sequence ≤ m) es
      → n ≤ m
      → m < e.sequence
      → Increasing n (es ++ e ∷ [])
  Increasing-snoc n m [] e i below le lt = (omega arith, tt)
  Increasing-snoc n m (d ∷ es) e i below le lt =
      (i.0, Increasing-snoc d.sequence m es e i.1 below.1 below.0 lt)

  below_mono :
      (m n : ℕ) (es : List (SequencedEvent V))
      → m ≤ n
      → All (λ d. d.sequence ≤ m) es
      → All (λ d. d.sequence ≤ n) es
  below_mono m n [] le h = tt
  below_mono m n (e ∷ es) le h = (omega (arith, h.0), below_mono m n es le h.1)

  -- Ranked events, oldest first, rise from zero and stay below the top.
  Ranked-rises :
      (top : ℕ) (es : List (SequencedEvent V))
      → Ranked top es
      → Increasing 0 (reverse es) × All (λ d. d.sequence ≤ top) (reverse es)
  Ranked-rises top [] h = (tt, tt)
  Ranked-rises top (e ∷ es) (le, (m, q, h)) =
      let (rises, below) = Ranked-rises m es h in
      rw (reverse-cons e es) (
        Increasing-snoc 0 m (reverse es) e rises below (omega arith) (omega arith),
        All-append (λ d. d.sequence ≤ top) (reverse es) (e ∷ [])
            (below_mono m top (reverse es) (omega arith) below) (le, tt),
      )

module _ {V : Type 0} (j : Json V) (config : TransportConfig) (show_idle : ℕ → String) where
  -- The events that the transport hands to ingress, oldest first.
  abbrev pub handed : List (Attempt V) → List (SequencedEvent V)
  handed attempts =
      reverse
        (connection_loop j config show_idle attempts
          (start_link j config show_idle)).0.connection.events

  module _ (encoded_len : SequencedEvent V → ℕ) (store_config : StoreConfig) where
    -- Whatever the socket yields over any number of connections, the ingress task gets through the
    -- events that the transport hands it and gives each thread signal among them to the ingestor
    -- once and in order, the lifecycle topic carries exactly those of the lifecycle plane, and a
    -- replay after any cursor is exactly the ones of them after it, or a gap is reported with the
    -- number of the oldest of the latest lifecycle events within the log's capacity, and that number
    -- is beyond the next one after the cursor. Ingress starts with a new reducer, an exact store
    -- within its limits and an empty topic, and the numbers and bytes fit in 64 bits.
    pub delivered_replay :
        (attempts : List (Attempt V)) (a : AuthoritativeIngress V) (capacity after : ℕ)
        → loads j config show_idle attempts ≤ u64_max
        → new capacity ≡ some a.reducer
        → a.hub.lifecycle_topic ≡ []
        → Accounts encoded_len a.store
        → IsBounded encoded_len store_config a.store
        → a.store.bytes + sum_by encoded_len (handed attempts) ≤ u64_max
        → (b : AuthoritativeIngress V) × (ingress_task j encoded_len store_config
              (map arrives (handed attempts))
              a
              []
            ≡ some (b, reverse (filter is_signal (handed attempts))))
          × (b.hub.lifecycle_topic ≡ lifecycle_of (handed attempts))
          × ((events_since after b.reducer
                ≡ events (filter (λ e. ltb after e.sequence) b.hub.lifecycle_topic))
              ⊎ ((oldest : SequencedEvent V) × (first (latest capacity b.hub.lifecycle_topic)
                    ≡ some oldest)
                  × (after + 1 < oldest.sequence)
                  × (events_since after b.reducer
                      ≡ gap_too_old after (some oldest.sequence) b.reducer.state.snapshot)))
    delivered_replay attempts a capacity after few made blank counted bounded room =
        let (bound, ranked) =
          connection_loop-Ranked j config show_idle attempts (start_link j config show_idle)
            (omega (arith, few)) tt in
        let (rises, below) = Ranked-rises _ _ ranked in
        let words = below_mono _ u64_max (handed attempts) (omega (arith, bound, few)) below in
        let (b, found, fanned, _) =
          run_ingress_lem j encoded_len store_config (handed attempts) a counted bounded room in
        let task =
          ingress_task_lem j encoded_len store_config (handed attempts) a b [] found
          ∙ ap (λ l. some (b, l)) (append-nil (reverse (filter is_signal (handed attempts)))) in
        let honest =
          events_since-honest j (handed attempts) capacity after a.reducer made rises words in
        let topic : b.hub.lifecycle_topic ≡ lifecycle_of (handed attempts) =
          fanned.lifecycles ∙ ap (λ l. l ++ lifecycle_of (handed attempts)) blank in
        (b, task, topic, rw (fanned.reduced, topic) honest)
