-- ===== src/Reducer/Pruning.antt =====
-- Which threads the state keeps (`is_prunable`, `apply`, the subscription operations and
-- `evict_idle` of src/reducer/src/lib.rs).
use codex_warden.Prelude.{
  is_some_and, max, String, Bool, true, false, some, ◌≡◌, ap, sym, ◌∙◌, not, ◌||◌, string_discrete,
  lookup-insert, lookup-remove, retain_sound, has-add, has-discard, arith, Option-cases, inl, inr,
}
use codex_warden.Protocol.Json.{Json, get_str}
use codex_warden.Protocol.Event.{SequencedEvent}
use codex_warden.Reducer.State.{
  ThreadState, ReducerState, thread_at, is_subscribing, is_prunable, begin_subscription,
  finish_subscription, cancel_subscription, set_unsubscribed, evict_idle, apply_state,
  reconcile_thread, reconciled_thread, observe, unknown_thread, entry,
}

some-inj : {x y : String} → some x ≡ some y → x ≡ y
some-inj e = cc

module _ {V : Type 0} where
  -- A thread is relevant: it is subscribed, being subscribed to, or has an active turn.
  abbrev pub is_relevant : String → ReducerState V → ThreadState V → Bool
  is_relevant id s t = is_subscribing id s || not (is_prunable t)

  abbrev pub RelevantAt : String → ReducerState V → Type 0
  RelevantAt id s = (t : ThreadState V) → thread_at id s ≡ some t → is_relevant id s t ≡ true

  abbrev pub Relevant : ReducerState V → Type 0
  Relevant s = (id : String) → RelevantAt id s

  pub begin_subscription-Relevant :
      (id q : String) (s : ReducerState V)
      → (¬ id ≡ q → RelevantAt q s)
      → RelevantAt q (begin_subscription id s)
  unfolding begin_subscription is_prunable
  begin_subscription-Relevant id q s r t = elim (string_discrete id q) [
    | yes p ↦ ground (
      arith,
      has-add string_discrete id q s.subscribing,
      lookup-insert string_discrete id q (unknown_thread id) s.snapshot.threads,
    )
    | no n ↦ ground (
      arith,
      has-add string_discrete id q s.subscribing,
      lookup-insert string_discrete id q (unknown_thread id) s.snapshot.threads,
      r n t,
    )
  ]

  pub finish_subscription-Relevant :
      (id q : String) (s : ReducerState V)
      → (¬ id ≡ q → RelevantAt q s)
      → RelevantAt q (finish_subscription id s)
  unfolding finish_subscription is_prunable
  finish_subscription-Relevant id q s r t = elim (string_discrete id q) [
    | yes p ↦ ground (
      arith,
      has-discard string_discrete id q s.subscribing,
      lookup-insert string_discrete id q (record (entry id s) { subscribed = true })
          s.snapshot.threads,
    )
    | no n ↦ ground (
      arith,
      has-discard string_discrete id q s.subscribing,
      lookup-insert string_discrete id q (record (entry id s) { subscribed = true })
          s.snapshot.threads,
      r n t,
    )
  ]

  pub cancel_subscription-Relevant :
      (id q : String) (s : ReducerState V)
      → (¬ id ≡ q → RelevantAt q s)
      → RelevantAt q (cancel_subscription id s)
  unfolding cancel_subscription is_prunable
  cancel_subscription-Relevant id q s r t = elim (string_discrete id q) [
    | yes p ↦ ground (
      arith,
      has-discard string_discrete id q s.subscribing,
      lookup-remove string_discrete id q s.snapshot.threads,
    )
    | no n ↦ ground (
      arith,
      has-discard string_discrete id q s.subscribing,
      lookup-remove string_discrete id q s.snapshot.threads,
      r n t,
    )
  ]

  pub set_unsubscribed-Relevant :
      (id q : String) (s : ReducerState V)
      → (¬ id ≡ q → RelevantAt q s)
      → RelevantAt q (set_unsubscribed id s)
  unfolding set_unsubscribed is_prunable
  set_unsubscribed-Relevant id q s r t = elim (string_discrete id q) [
    | yes p ↦ ground (
      arith,
      has-discard string_discrete id q s.subscribing,
      lookup-remove string_discrete id q s.snapshot.threads,
      lookup-insert string_discrete id q (record (entry id s) { subscribed = false })
          s.snapshot.threads,
    )
    | no n ↦ ground (
      arith,
      has-discard string_discrete id q s.subscribing,
      lookup-remove string_discrete id q s.snapshot.threads,
      lookup-insert string_discrete id q (record (entry id s) { subscribed = false })
          s.snapshot.threads,
      r n t,
    )
  ]

  pub evict_idle-Relevant : (s : ReducerState V) → Relevant (evict_idle s).0
  unfolding evict_idle
  evict_idle-Relevant s q t e =
      retain_sound string_discrete (λ id u. is_relevant id s u) q t s.snapshot.threads e

module _ {V : Type 0} (j : Json V) where
  pub apply_state-Relevant :
      (event : SequencedEvent V) (q : String) (s : ReducerState V)
      → (¬ event.thread_id ≡ some q → RelevantAt q s)
      → RelevantAt q (apply_state j event s)
  unfolding apply_state
  apply_state-Relevant event q s r t = elim (Option-cases event.thread_id) [
    | inl e ↦ rw (e, apply_state) (r (λ h. absurd (ground (arith, e, h))) t)
    | inr (id, e) ↦
        let seen : ReducerState V = record s {
          snapshot = record (s.snapshot) {
            at_sequence = max s.snapshot.at_sequence event.sequence;
          };
        } in
        let put =
          lookup-insert string_discrete id q (observe j event (entry id seen)) s.snapshot.threads in
        let dropped = lookup-remove string_discrete id q s.snapshot.threads in
        elim (string_discrete id q) [
          | yes p ↦ rw (e, apply_state) (ground (arith, put, dropped))
          | no n ↦
              let kept = r (λ h. n (some-inj (sym e ∙ h))) t in
              rw (e, apply_state) (ground (arith, put, dropped, kept))
        ]
  ]

  pub reconcile_thread-Relevant :
      (raw : V) (q : String) (s : ReducerState V)
      → ¬ get_str j raw "id" ≡ some q
      → RelevantAt q s
      → RelevantAt q (reconcile_thread j raw s)
  unfolding reconcile_thread
  reconcile_thread-Relevant raw q s other r t = elim (Option-cases (get_str j raw "id")) [
    | inl e ↦ rw (e, reconcile_thread) (r t)
    | inr (id, e) ↦
        let thread =
          reconciled_thread j raw id s.snapshot.at_sequence
            (is_some_and (thread_at id s) (λ t. t.subscribed)) in
        elim (string_discrete id q) [
          | yes p ↦ absurd (other (e ∙ ap some p))
          | no n ↦
              rw (e, reconcile_thread)
                (ground (arith, lookup-insert string_discrete id q thread s.snapshot.threads, r t))
        ]
  ]
