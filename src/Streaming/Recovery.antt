-- ===== src/Streaming/Recovery.antt =====
-- What a lifecycle consumer sees after it has lagged (src/streaming/src/lib.rs).
use codex_warden.Prelude.{
  ℕ, ◌+◌, ◌≤◌, ◌<◌, max, some, List, [], ◌∷◌, ◌≡◌, refl, arith, ltb, filter, first, last, unwrap_or,
  map_option, ◌⊎◌, inl, inr, add64, u64_max,
}
use codex_warden.Protocol.Json.{Json}
use codex_warden.Protocol.Event.{SequencedEvent}
use codex_warden.Reducer.Apply.{Reducer, run, new}
use codex_warden.Reducer.Replay.{
  lifecycle_of, latest, Increasing, Words, events_since-honest, Increasing-mono,
  lifecycle_of-Increasing,
}
use codex_warden.Streaming.Hub.{Received, value, lagged, replay, gap, recv, recover, recv_delta}

module _ {V : Type 0} where
  filter-Increasing :
      (after n : ℕ) (es : List (SequencedEvent V))
      → Increasing n es
      → Increasing n (filter (λ e. ltb after e.sequence) es)
  filter-Increasing after n [] i = tt
  filter-Increasing after n (e ∷ es) i =
      let rest = filter-Increasing after e.sequence es i.1 in
      ground (
        arith,
        rest,
        Increasing-mono {m = n} {n = e.sequence} (filter (λ e. ltb after e.sequence) es),
      )

  -- Of events above `cursor` none is lost to the filter by it.
  filter_above :
      (cursor n : ℕ) (es : List (SequencedEvent V))
      → Increasing n es
      → Increasing cursor (filter (λ e. ltb cursor e.sequence) es)
  filter_above cursor n [] i = tt
  filter_above cursor n (e ∷ es) i =
      ground
        (arith, filter_above cursor e.sequence es i.1, filter-Increasing cursor e.sequence es i.1)

  -- The greatest of a cursor and the sequences of events.
  abbrev pub highest : ℕ → List (SequencedEvent V) → ℕ
  highest cursor [] = cursor
  highest cursor (e ∷ es) = max e.sequence (highest cursor es)

  last-highest :
      (cursor n : ℕ) (es : List (SequencedEvent V))
      → cursor ≤ n
      → Increasing n es
      → unwrap_or (map_option (λ (e : SequencedEvent V). e.sequence) (last es)) cursor
        ≡ highest cursor es
  last-highest cursor n [] h i = refl
  last-highest cursor n (e ∷ []) h i = omega (arith, i.0)
  last-highest cursor n (e ∷ d ∷ es) h i =
      omega (arith, last-highest cursor e.sequence (d ∷ es) (omega (arith, i.0)) i.1, above)
    where
      above : e.sequence < highest cursor (d ∷ es)
      above = omega (arith, i.1.0)

module _ {V : Type 0} (j : Json V) where
  -- A consumer that lags, behind a reducer that was new and has applied a history of rising
  -- sequences within 64 bits, gets exactly the history's lifecycle events after its cursor, and its cursor moves to the greatest
  -- sequence among them, or stays where there are none; or it is told of a gap, with the current
  -- snapshot and the number of the oldest of the latest lifecycle events within the capacity, which
  -- is beyond the next one after the cursor, and its cursor moves to the snapshot's sequence.
  pub recv_lagged :
      (es : List (SequencedEvent V)) (capacity cursor count : ℕ) (r : Reducer V)
      → new capacity ≡ some r
      → Increasing 0 es
      → Words es
      → let missed = filter (λ e. ltb cursor e.sequence) (lifecycle_of es) in
        let after = run j es r in
        (recv after cursor (lagged count) ≡ (replay missed, highest cursor missed))
        ⊎ ((oldest : SequencedEvent V) × (first (latest capacity (lifecycle_of es)) ≡ some oldest)
            × (cursor + 1 < oldest.sequence)
            × (recv after cursor (lagged count) ≡ (
              gap after.state.snapshot (some oldest.sequence),
              after.state.snapshot.at_sequence,
            )))
  unfolding recv recover
  recv_lagged es capacity cursor count r made i w =
      let missed = filter (λ e. ltb cursor e.sequence) (lifecycle_of es) in
      let moved =
        last-highest cursor cursor missed (omega arith)
          (filter_above cursor 0 (lifecycle_of es) (lifecycle_of-Increasing 0 es i)) in
      elim (events_since-honest j es capacity cursor r made i w) [
        | inl e ↦ inl (rw (e, recv, recover, moved) refl)
        | inr (o, q, h, e) ↦ inr (o, q, h, rw (e, recv))
      ]

module _ {V : Type 0} where
  -- The lags before the end of a wait.
  abbrev pub losses : List (Received V) → ℕ
  losses [] = 0
  losses (value _ ∷ rest) = 0
  losses (lagged count ∷ rest) = count + losses rest
  losses (Received.closed ∷ rest) = 0

  -- The count of a wait on the delta stream grows by the lags before its end, modulo 2^64. The count
  -- is a word before the wait.
  recv_delta-losses :
      (dropped : ℕ) (results : List (Received V))
      → dropped ≤ u64_max
      → (recv_delta dropped results).1 ≡ add64 dropped (losses results)
  unfolding recv_delta
  recv_delta-losses dropped [] h = omega arith
  recv_delta-losses dropped (value e ∷ rest) h = omega arith
  recv_delta-losses dropped (lagged count ∷ rest) h =
      omega (arith, recv_delta-losses (add64 dropped count) rest (omega arith))
  recv_delta-losses dropped (Received.closed ∷ rest) h = omega arith
