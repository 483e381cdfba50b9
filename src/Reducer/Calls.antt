-- ===== src/Reducer/Calls.antt =====
-- Histories of calls on the reducer's state (src/reducer/src/lib.rs).
use codex_warden.Prelude.{
  String, Bool, true, false, some, none, Option, ◌≡◌, refl, ◌==◌, if◌then◌else◌, arith, is_some_and,
  opt_eq, string_discrete, lookup-insert,
}
use codex_warden.Protocol.Json.{Json, get_str}
use codex_warden.Protocol.Event.{SequencedEvent}
use codex_warden.Reducer.State.{
  ReducerState, thread_at, is_subscribing, is_prunable, begin_subscription, finish_subscription,
  cancel_subscription, set_subscribed, evict_idle, apply_state, reconcile_thread, reconciled_thread,
  last_open_turn,
}
use codex_warden.Reducer.Pruning.{
  RelevantAt, Relevant, begin_subscription-Relevant, finish_subscription-Relevant,
  cancel_subscription-Relevant, set_unsubscribed-Relevant, evict_idle-Relevant,
  apply_state-Relevant, reconcile_thread-Relevant,
}

module _ {V : Type 0} (j : Json V) where
  -- One call of a method of the reducer that takes the state's lock for writing.
  pub data Step (s : ReducerState V) : ReducerState V → Type 0 where
    applies : (e : SequencedEvent V) → Step s (apply_state j e s)
    begins : (id : String) → Step s (begin_subscription id s)
    finishes : (id : String) → Step s (finish_subscription id s)
    cancels : (id : String) → Step s (cancel_subscription id s)
    sets : (id : String) (on : Bool) → Step s (set_subscribed id on s)
    evicts : Step s (evict_idle s).0
    reconciles : (raw : V) → Step s (reconcile_thread j raw s)

  -- Whether the last call that concerns a thread is a reconciliation of it, from whether it was so
  -- before the call.
  abbrev pub is_reconciled : {s t : ReducerState V} → String → Bool → Step s t → Bool
  is_reconciled q before (applies e) = if opt_eq e.thread_id (some q) then false else before
  is_reconciled q before (begins id) = if id == q then false else before
  is_reconciled q before (finishes id) = if id == q then false else before
  is_reconciled q before (cancels id) = if id == q then false else before
  is_reconciled q before (sets id on) = if id == q then false else before
  is_reconciled q before evicts = false
  is_reconciled q before (reconciles raw) =
      if opt_eq (get_str j raw "id") (some q) then true else before

  -- The states that calls reach, and of a thread whether the last call that concerns it is a
  -- reconciliation of it.
  pub data Reach (q : String) (s : ReducerState V) : Bool → ReducerState V → Type 0 where
    here : Reach q s false s
    next :
        {before : Bool} {t u : ReducerState V}
        → Reach q s before t
        → (call : Step t u) → Reach q s (is_reconciled q before call) u

  set_subscribed-Relevant :
      (id q : String) (on : Bool) (s : ReducerState V)
      → (¬ id ≡ q → RelevantAt q s)
      → RelevantAt q (set_subscribed id on s)
  unfolding set_subscribed
  set_subscribed-Relevant id q true s r = finish_subscription-Relevant id q s r
  set_subscribed-Relevant id q false s r = set_unsubscribed-Relevant id q s r

  opt_eq_iff :
      (o : Option String) (q : String)
      → (o ≡ some q → opt_eq o (some q) ≡ true) × (opt_eq o (some q) ≡ true → o ≡ some q)
  opt_eq_iff none q = (λ e. cc, λ e. cc)
  opt_eq_iff (some id) q = (λ e. ground (arith, e), λ e. ground (arith, e))

  Step-Relevant :
      {s t : ReducerState V} (q : String) (before : Bool) (call : Step s t)
      → (before ≡ false → RelevantAt q s)
      → is_reconciled q before call ≡ false
      → RelevantAt q t
  Step-Relevant {s} q before (applies e) r last =
      apply_state-Relevant j e q s (λ n. r (ground (arith, n, opt_eq_iff e.thread_id q)))
  Step-Relevant {s} q before (begins id) r last =
      begin_subscription-Relevant id q s (λ n. r (ground (arith, n)))
  Step-Relevant {s} q before (finishes id) r last =
      finish_subscription-Relevant id q s (λ n. r (ground (arith, n)))
  Step-Relevant {s} q before (cancels id) r last =
      cancel_subscription-Relevant id q s (λ n. r (ground (arith, n)))
  Step-Relevant {s} q before (sets id on) r last =
      set_subscribed-Relevant id q on s (λ n. r (ground (arith, n)))
  Step-Relevant {s} q before evicts r last = evict_idle-Relevant s q
  Step-Relevant {s} q before (reconciles raw) r last =
      let other : opt_eq (get_str j raw "id") (some q) ≡ false = ground arith in
      reconcile_thread-Relevant j raw q s
        (λ e. absurd (ground (arith, other, (opt_eq_iff (get_str j raw "id") q).0 e)))
        (r (ground arith))

  Reach-RelevantAt :
      (q : String) {s t : ReducerState V} (reconciled : Bool)
      → Relevant s
      → Reach q s reconciled t
      → reconciled ≡ false
      → RelevantAt q t
  Reach-RelevantAt q _ r here last = r q
  Reach-RelevantAt q _ r (next {before} h call) last =
      Step-Relevant q before call (Reach-RelevantAt q before r h) last

  -- In every state that calls of any kind reach from one that holds relevant threads only, a thread
  -- that is held is subscribed, is being subscribed to, or has an active turn, unless the last call
  -- that concerns it is a reconciliation of it. An event of the thread, a call for its subscription
  -- and an eviction concern it too.
  pub Reach-Relevant :
      (q : String) {s t : ReducerState V} → Relevant s → Reach q s false t → RelevantAt q t
  Reach-Relevant q r h = Reach-RelevantAt q false r h refl

  -- A reconciliation writes an entry for a thread that nobody subscribes to and that has no open
  -- turn, so an idle thread is held until the next `evict_idle`.
  pub reconcile_thread-holds_idle :
      (raw : V) (s : ReducerState V) (id : String)
      → get_str j raw "id" ≡ some id
      → is_subscribing id s ≡ false
      → is_some_and (thread_at id s) (λ t. t.subscribed) ≡ false
      → last_open_turn j raw ≡ none
      → ¬ Relevant (reconcile_thread j raw s)
  unfolding reconcile_thread is_prunable
  reconcile_thread-holds_idle raw s id e idle free closed r =
      let t =
        reconciled_thread j raw id s.snapshot.at_sequence
          (is_some_and (thread_at id s) (λ t. t.subscribed)) in
      ground (arith, lookup-insert string_discrete id id t s.snapshot.threads, r id t)
