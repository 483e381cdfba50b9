-- ===== src/Reducer/Tests.antt =====
-- Examples of the reducer.
use mathlib.Core.List.{Perm}
use codex_warden.Prelude.{
  ◌+◌, ◌<◌, true, false, ◌≡◌, ◌⊎◌, refl, arith, some, List, [], ◌∷◌, ◌++◌, map, All, filter, ltb,
  first, ap, opt_eq, string_discrete, lookup, has,
}
use codex_warden.Protocol.Event.{SequencedEvent}
use codex_warden.Reducer.State.{
  ReducerState, apply_state, reconcile_thread, begin_subscription, finish_subscription,
  last_open_turn,
}
use codex_warden.Reducer.Waiters.{Waiter, wake}
use codex_warden.Reducer.Apply.{Reducer, new, run, events_since, events, gap_too_old}
use codex_warden.Reducer.Pruning.{Relevant, RelevantAt}
use codex_warden.Reducer.Wake.{wake_lem}
use codex_warden.Reducer.Replay.{run-lifecycle, events_since-honest, latest, lifecycle_of}
use codex_warden.Reducer.Calls.{
  Reach-Relevant, reconcile_thread-holds_idle, here, next, begins, finishes, reconciles, applies,
}
use codex_warden.Samples.{json, Value, get, as_str, text, field, nil, started, spoken, completed}

abbrev blank : ReducerState Value
blank = record { snapshot = record { at_sequence = 0; threads = [] }; subscribing = [] }

abbrev fresh : Reducer Value
fresh = record { state = blank; lifecycle = []; lifecycle_capacity = 2; waiters = []; channels = 0 }

abbrev day : List (SequencedEvent Value)
day = started ∷ spoken ∷ completed ∷ []

abbrev waiters : List (Waiter Value)
waiters =
    record { predicate = λ _. true; sender = 0 }
    ∷ record { predicate = λ _. false; sender = 1 }
    ∷ []

wake_example :
    (ready : List (Waiter Value)) × Perm waiters (ready ++ (wake started waiters).0)
    × ((wake started waiters).1 ≡ map (λ w. (w.sender, started)) ready)
    × All (λ w. w.predicate started ≡ true) ready
    × All (λ w. w.predicate started ≡ false) (wake started waiters).0
wake_example = wake_lem started waiters

run-lifecycle_example : (run json day fresh).lifecycle ≡ latest 2 (lifecycle_of day)
run-lifecycle_example = run-lifecycle json day [] fresh refl

events_since-honest_example :
    (events_since 0 (run json day fresh)
      ≡ events (filter (λ e. ltb 0 e.sequence) (lifecycle_of day)))
    ⊎ ((oldest : SequencedEvent Value) × (first (latest 2 (lifecycle_of day)) ≡ some oldest)
        × (0 + 1 < oldest.sequence)
        × (events_since 0 (run json day fresh)
            ≡ gap_too_old 0 (some oldest.sequence) (run json day fresh).state.snapshot))
unfolding new
events_since-honest_example =
    events_since-honest json day 2 0 fresh refl (omega arith, (omega arith, (omega arith, tt)))
      (omega arith, (omega arith, (omega arith, tt)))

other_thread : started.thread_id ≡ some "other" → ⊥
unfolding string_discrete
other_thread e = absurd (ground (arith, ap (λ o. opt_eq o (some "t")) e))

blank-Relevant : Relevant blank
unfolding lookup
blank-Relevant id t e = cc

-- The thread is subscribed to and reconciled, and then an event of it is applied.
abbrev reconciled : ReducerState Value
reconciled =
    reconcile_thread json (field "id" (text "t") nil)
      (finish_subscription "t" (begin_subscription "t" blank))

Reach-Relevant_example : RelevantAt "t" (apply_state json started reconciled)
unfolding string_discrete
Reach-Relevant_example = Reach-Relevant json "t" blank-Relevant (
    next
      (next (next (next here (begins "t")) (finishes "t")) (reconciles (field "id" (text "t") nil)))
      (applies started))

reconcile_thread-holds_idle_example :
    ¬ Relevant (reconcile_thread json (field "id" (text "t") nil) blank)
unfolding get string_discrete as_str has lookup last_open_turn
reconcile_thread-holds_idle_example =
    reconcile_thread-holds_idle json (field "id" (text "t") nil) blank "t" refl refl refl refl
