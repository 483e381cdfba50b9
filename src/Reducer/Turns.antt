-- ===== src/Reducer/Turns.antt =====
-- How a turn's events move its thread (`apply` of src/reducer/src/lib.rs).
use codex_warden.Prelude.{
  String, true, some, none, ◌≡◌, arith, ◌⊎◌, inl, inr, string_discrete, lookup-insert,
  lookup-remove, Option-cases,
}
use codex_warden.Protocol.Json.{Json}
use codex_warden.Protocol.Event.{SequencedEvent, method}
use codex_warden.Reducer.State.{
  ThreadState, ReducerState, thread_at, entry, observe, turn_started, turn_completed, apply_state,
  is_prunable,
}

active-not-prunable :
    {V : Type 0} (t : ThreadState V) (turn : String)
    → t.active_turn_id ≡ some turn
    → ¬ (is_prunable t ≡ true)
unfolding is_prunable
active-not-prunable t turn a p = ground arith

module _ {V : Type 0} (j : Json V) where
  observe_started :
      (e : SequencedEvent V) (t : ThreadState V)
      → method e ≡ some "turn/started"
      → observe j e t ≡ turn_started e (record t { last_sequence = e.sequence })
  unfolding observe string_discrete
  observe_started e t h = rw h

  observe_completed :
      (e : SequencedEvent V) (t : ThreadState V)
      → method e ≡ some "turn/completed"
      → observe j e t ≡ turn_completed e (record t { last_sequence = e.sequence })
  unfolding observe string_discrete
  observe_completed e t h = rw h

  -- What the state holds of a thread after an event about it.
  pub apply_state-thread :
      (e : SequencedEvent V) (s : ReducerState V) (id : String)
      → e.thread_id ≡ some id
      → (thread_at id (apply_state j e s) ≡ some (observe j e (entry id s)))
        ⊎ ((thread_at id (apply_state j e s) ≡ none)
            × (is_prunable (observe j e (entry id s)) ≡ true))
  unfolding apply_state
  apply_state-thread e s id h =
      rw (h, apply_state)
        (ground (
          arith,
          lookup-insert string_discrete id id (observe j e (entry id s)) s.snapshot.threads,
          lookup-remove string_discrete id id s.snapshot.threads,
        ))

  -- An event changes nothing of another thread.
  apply_state_other :
      (e : SequencedEvent V) (s : ReducerState V) (id : String)
      → (e.thread_id ≡ some id → ⊥)
      → thread_at id (apply_state j e s) ≡ thread_at id s
  unfolding apply_state
  apply_state_other e s id h = elim (Option-cases e.thread_id) [
    | inl p ↦ rw (p, apply_state)
    | inr (k, p) ↦
        rw (p, apply_state)
          (ground (
            arith,
            h,
            lookup-insert string_discrete k id (observe j e (entry k s)) s.snapshot.threads,
            lookup-remove string_discrete k id s.snapshot.threads,
          ))
  ]

  -- A turn that starts and completes: in between its thread is kept with that turn active, and
  -- afterwards, if it is still held, it is idle with no active turn.
  turn_cycle :
      (start done : SequencedEvent V) (s : ReducerState V) (id turn : String)
      → start.thread_id ≡ some id
      → start.turn_id ≡ some turn
      → method start ≡ some "turn/started"
      → done.thread_id ≡ some id
      → done.turn_id ≡ some turn
      → method done ≡ some "turn/completed"
      → let during = apply_state j start s in
        let after = apply_state j done during in
        ((t : ThreadState V) × (thread_at id during ≡ some t)
          × (t.active_turn_id ≡ some turn)
          × (t.status ≡ "active"))
        × ((thread_at id after ≡ none)
            ⊎ ((u : ThreadState V) × (thread_at id after ≡ some u)
                × (u.active_turn_id ≡ none)
                × (u.status ≡ "idle")))
  unfolding turn_started turn_completed
  turn_cycle start done s id turn ts us ms td ud md =
      let t = observe j start (entry id s) in
      let started = observe_started start (entry id s) ms in
      let active : t.active_turn_id ≡ some turn = ground (arith, started) in
      let during = apply_state j start s in
      let kept : thread_at id during ≡ some t =
        held during t active (apply_state-thread start s id ts) in
      let u = observe j done (entry id during) in
      let ended : (u.active_turn_id ≡ none) × (u.status ≡ "idle") =
        ground (arith, kept, active, observe_completed done (entry id during) md) in
      (
        (t, kept, active, ground (arith, started)),
        left (apply_state j done during) u ended.0 ended.1 (apply_state-thread done during id td),
      )
    where
      held :
          (q : ReducerState V) (t : ThreadState V)
          → t.active_turn_id ≡ some turn
          → (thread_at id q ≡ some t) ⊎ ((thread_at id q ≡ none) × (is_prunable t ≡ true))
          → thread_at id q ≡ some t
      held q t a (inl e) = e
      held q t a (inr (_, p)) = absurd (active-not-prunable t turn a p)

      left :
          (q : ReducerState V) (u : ThreadState V)
          → u.active_turn_id ≡ none
          → u.status ≡ "idle"
          → (thread_at id q ≡ some u) ⊎ ((thread_at id q ≡ none) × (is_prunable u ≡ true))
          → (thread_at id q ≡ none)
            ⊎ ((u : ThreadState V) × (thread_at id q ≡ some u)
                × (u.active_turn_id ≡ none)
                × (u.status ≡ "idle"))
      left q u a st (inl e) = inr (u, e, a, st)
      left q u a st (inr (e, _)) = inl e
