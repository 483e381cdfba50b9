-- ===== src/Streaming/Repeats.antt =====
-- What a consumer that has lagged receives after its replay (`LifecycleStream::recv` of
-- src/streaming/src/lib.rs). The `tokio` channel is a parameter, with its documented behaviour.
use mathlib.Core.List.{Mem, mem-append_right, mem-cons_self}
use codex_warden.Prelude.{
  ℕ, suc, ◌+◌, ◌-◌, ◌≤◌, ◌<◌, some, List, [], ◌∷◌, ◌++◌, ◌≡◌, refl, sym, ap, subst, ◌∙◌, arith, ltb,
  filter, filter-append, length, inl, inr,
}
use codex_warden.Protocol.Json.{Json}
use codex_warden.Protocol.Event.{SequencedEvent}
use codex_warden.Reducer.Apply.{Reducer, run, new}
use codex_warden.Reducer.Replay.{lifecycle_of, Increasing, Words, lifecycle_of-Increasing}
use codex_warden.Streaming.Hub.{
  LifecycleStream, LifecycleItem, Received, value, lagged, replay, pull, recv,
}
use codex_warden.Streaming.Recovery.{highest, recv_lagged}

-- A `tokio` broadcast channel that holds the last `size` events of its topic. A receiver whose place
-- is before them is told how many it has missed, and is then at the oldest one held; a receiver
-- whose place is among them gets the event there.
pub record IsBroadcast {V : Type 0} (size : ℕ)
    (channel : List (SequencedEvent V) → ℕ → Received V × ℕ) : Type 0 where
  pub lags :
      (gone held : List (SequencedEvent V)) (place : ℕ)
      → length held ≡ size
      → place < length gone
      → channel (gone ++ held) place ≡ (lagged (length gone - place), length gone)
  pub gives :
      (before after : List (SequencedEvent V)) (e : SequencedEvent V)
      → length (e ∷ after) ≤ size
      → channel (before ++ e ∷ after) (length before) ≡ (value e, suc (length before))

module _ {V : Type 0} where
  Increasing-after :
      (n : ℕ) (before after : List (SequencedEvent V)) (e : SequencedEvent V)
      → Increasing n (before ++ e ∷ after)
      → Increasing e.sequence after
  Increasing-after n [] after e i = i.1
  Increasing-after n (d ∷ before) after e i = Increasing-after d.sequence before after e i.1

  filter-rising :
      (cursor n : ℕ) (es : List (SequencedEvent V))
      → cursor ≤ n
      → Increasing n es
      → filter (λ e. ltb cursor e.sequence) es ≡ es
  filter-rising cursor n [] h i = refl
  filter-rising cursor n (e ∷ es) h i =
      ground (arith, filter-rising cursor e.sequence es (omega (arith, i.0)) i.1)

  highest-rising :
      (cursor : ℕ) (e : SequencedEvent V) (es : List (SequencedEvent V))
      → Increasing e.sequence es
      → e.sequence + length es ≤ highest cursor (e ∷ es)
  highest-rising cursor e [] i = omega arith
  highest-rising cursor e (d ∷ es) i = omega (arith, i.0, highest-rising cursor d es i.1)

  highest-append :
      (cursor : ℕ) (before after : List (SequencedEvent V))
      → highest cursor after ≤ highest cursor (before ++ after)
  highest-append cursor [] after = omega arith
  highest-append cursor (e ∷ before) after = omega (arith, highest-append cursor before after)

  -- The events after the cursor, where one of them is at a known place.
  filter-split :
      (cursor n : ℕ) (before after : List (SequencedEvent V)) (e : SequencedEvent V)
      → Increasing n (before ++ e ∷ after)
      → cursor < e.sequence
      → filter (λ e. ltb cursor e.sequence) (before ++ e ∷ after)
        ≡ filter (λ e. ltb cursor e.sequence) before ++ e ∷ after
  filter-split cursor n before after e i h =
      let rest =
        filter-rising cursor e.sequence after (omega arith) (Increasing-after n before after e i) in
      filter-append (λ e. ltb cursor e.sequence) before (e ∷ after)
      ∙ ap (λ l. filter (λ e. ltb cursor e.sequence) before ++ l) (ground (arith, rest))

module _ {V : Type 0} (j : Json V) (size : ℕ)
    (channel : List (SequencedEvent V) → ℕ → Received V × ℕ) (laws : IsBroadcast size channel) where
  pull-lagged :
      (after : Reducer V) (gone held : List (SequencedEvent V)) (stream : LifecycleStream)
      → length held ≡ size
      → stream.receiver < length gone
      → let received = recv after stream.cursor (lagged (length gone - stream.receiver)) in
        pull channel after (gone ++ held) stream
        ≡ (received.0, record { receiver = length gone; cursor = received.1 })
  unfolding pull
  pull-lagged after gone held stream full behind =
      rw (laws.lags gone held stream.receiver full behind, pull) refl

  pull-value :
      (after : Reducer V) (before rest : List (SequencedEvent V)) (e : SequencedEvent V)
      (cursor : ℕ)
      → length (e ∷ rest) ≤ size
      → pull channel after
          (before ++ e ∷ rest)
          (record { receiver = length before; cursor = cursor })
        ≡ (LifecycleItem.event e, record { receiver = suc (length before); cursor = e.sequence })
  unfolding pull recv
  pull-value after before rest e cursor fits = rw (laws.gives before rest e fits, pull) refl

  -- The reducer has applied a history of rising sequences within 64 bits, and its lifecycle events
  -- have been sent on the topic, of which the channel holds the last ones, from `e` on. A consumer
  -- whose place is before them and whose cursor is below `e` lags, and is given a replay. The replay
  -- has `e` in it, and the next call delivers `e` again and moves the cursor back to it, by at least
  -- the number of events after it.
  pub recv_repeats :
      (es gone held : List (SequencedEvent V)) (e : SequencedEvent V) (capacity : ℕ) (r : Reducer V)
      (stream : LifecycleStream) (shown : List (SequencedEvent V))
      → new capacity ≡ some r
      → Increasing 0 es
      → Words es
      → lifecycle_of es ≡ gone ++ e ∷ held
      → length (e ∷ held) ≡ size
      → stream.receiver < length gone
      → stream.cursor < e.sequence
      → (pull channel (run j es r) (lifecycle_of es) stream).0 ≡ replay shown
      → let caught_up = (pull channel (run j es r) (lifecycle_of es) stream).1 in
        let (item, last) = pull channel (run j es r) (lifecycle_of es) caught_up in
        Mem e shown
        × (item ≡ LifecycleItem.event e)
        × (last.cursor ≡ e.sequence)
        × (last.cursor + length held ≤ caught_up.cursor)
  recv_repeats es gone held e capacity r stream shown made i w split full behind low given =
      let after = run j es r in
      let count = length gone - stream.receiver in
      let missed = filter (λ d. ltb stream.cursor d.sequence) (lifecycle_of es) in
      let lag = pull-lagged after gone (e ∷ held) stream full behind in
      let rising : Increasing 0 (gone ++ e ∷ held) =
        subst (Increasing 0) split (lifecycle_of-Increasing 0 es i) in
      elim (recv_lagged j es capacity stream.cursor count r made i w) [
        | inl p ↦
            let caught : pull channel after (lifecycle_of es) stream ≡ (
              replay missed,
              record { receiver = length gone; cursor = highest stream.cursor missed },
            ) =
              ap (λ t. pull channel after t stream) split
              ∙ lag
              ∙ ap (λ x. (x.0, record { receiver = length gone; cursor = x.1 })) p in
            let same : replay missed ≡ replay shown = sym (ap (λ x. x.0) caught) ∙ given in
            let again =
              ap
                (λ t.
                  pull channel after t
                    (record { receiver = length gone; cursor = highest stream.cursor missed }))
                split
              ∙ pull-value after gone held e (highest stream.cursor missed) (omega (arith, full)) in
            let parts =
              ap (filter (λ d. ltb stream.cursor d.sequence)) split
              ∙ filter-split stream.cursor 0 gone held e rising low in
            let place : Mem e missed = rw parts (mem-append_right _ mem-cons_self) in
            let back =
              highest-append stream.cursor (filter (λ d. ltb stream.cursor d.sequence) gone)
                (e ∷ held) in
            let top = highest-rising stream.cursor e held (Increasing-after 0 gone held e rising) in
            rw (caught, again)
              (subst (Mem e) (ground arith) place, refl, refl, rw parts (omega (arith, back, top)))
        | inr (o, _, _, p) ↦
            absurd (ground (arith, ap (λ t. pull channel after t stream) split ∙ lag, p))
      ]
