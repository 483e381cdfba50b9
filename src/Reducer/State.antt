-- ===== src/Reducer/State.antt =====
-- The lifecycle state behind the reducer's lock, and the operations that hold that lock
-- (src/reducer/src/lib.rs).
use codex_warden.Prelude.{
  ℕ, ◌-◌, max, String, Bool, true, false, Option, some, none, List, reverse, ◌==◌, opt_eq, ◌&&◌,
  ◌||◌, not, or_else, and_then, unwrap_or, is_some, is_none, is_some_and, find, length,
  if◌then◌else◌, string_discrete, lookup, insert, remove, retain, has, add, discard,
}
use codex_warden.Protocol.Json.{Json, get_str}
use codex_warden.Protocol.Event.{SequencedEvent, method}
use codex_warden.Protocol.Frame

pub record ThreadState (V : Type 0) : Type 0 where
  pub thread_id : String
  pub status : String
  pub active_turn_id : Option String
  pub subscribed : Bool
  pub ephemeral : Bool
  pub last_sequence : ℕ
  pub raw_thread : Option V

pub record Snapshot (V : Type 0) : Type 0 where
  pub at_sequence : ℕ
  pub threads : List (String × ThreadState V)

pub record ReducerState (V : Type 0) : Type 0 where
  pub snapshot : Snapshot V
  pub subscribing : List String

module _ {V : Type 0} where
  abbrev pub thread_at : String → ReducerState V → Option (ThreadState V)
  thread_at id s = lookup string_discrete id s.snapshot.threads

  abbrev pub is_subscribing : String → ReducerState V → Bool
  is_subscribing id s = has string_discrete id s.subscribing

  abbrev pub put_thread : String → ThreadState V → ReducerState V → ReducerState V
  put_thread id t s = record s {
    snapshot = record (s.snapshot) { threads = insert string_discrete id t s.snapshot.threads };
  }

  abbrev pub drop_thread : String → ReducerState V → ReducerState V
  drop_thread id s = record s {
    snapshot = record (s.snapshot) { threads = remove string_discrete id s.snapshot.threads };
  }

  abbrev pub set_subscribing : List String → ReducerState V → ReducerState V
  set_subscribing ids s = record s { subscribing = ids }

  -- The entry that `or_insert_with` makes.
  abbrev pub unknown_thread : String → ThreadState V
  unknown_thread id = record {
    thread_id = id;
    status = "unknown";
    active_turn_id = none;
    subscribed = false;
    ephemeral = false;
    last_sequence = 0;
    raw_thread = none;
  }

  unfoldable pub is_prunable : ThreadState V → Bool
  is_prunable t = not t.subscribed && is_none t.active_turn_id

  -- `entry(id).or_insert_with(…)`.
  abbrev pub entry : String → ReducerState V → ThreadState V
  entry id s = unwrap_or (thread_at id s) (unknown_thread id)

  unfoldable pub begin_subscription : String → ReducerState V → ReducerState V
  begin_subscription id s =
      let marked = set_subscribing (add string_discrete id s.subscribing) s in
      elim (thread_at id marked) [
        | none ↦ put_thread id (unknown_thread id) marked
        | some _ ↦ marked
      ]

  unfoldable pub finish_subscription : String → ReducerState V → ReducerState V
  finish_subscription id s =
      let released = set_subscribing (discard string_discrete id s.subscribing) s in
      put_thread id (record (entry id released) { subscribed = true }) released

  unfoldable pub cancel_subscription : String → ReducerState V → ReducerState V
  unfolding is_prunable
  cancel_subscription id s =
      let released = set_subscribing (discard string_discrete id s.subscribing) s in
      if is_some_and (thread_at id released) is_prunable then drop_thread id released else released

  -- `get_mut(id).is_some_and(…)` with its write of `subscribed`.
  unfoldable pub set_unsubscribed : String → ReducerState V → ReducerState V
  unfolding is_prunable
  set_unsubscribed id s =
      let released = set_subscribing (discard string_discrete id s.subscribing) s in
      elim (thread_at id released) [
        | none ↦ released
        | some t ↦
            let t' : ThreadState V = record t { subscribed = false } in
            if is_prunable t' then drop_thread id released else put_thread id t' released
      ]

  unfoldable pub set_subscribed : String → Bool → ReducerState V → ReducerState V
  unfolding finish_subscription set_unsubscribed
  set_subscribed id true s = finish_subscription id s
  set_subscribed id false s = set_unsubscribed id s

  unfoldable pub evict_idle : ReducerState V → ReducerState V × ℕ
  unfolding is_prunable
  evict_idle s =
      let kept =
        retain (λ id t. has string_discrete id s.subscribing || not (is_prunable t))
          s.snapshot.threads in
      (
        record s { snapshot = record (s.snapshot) { threads = kept } },
        length s.snapshot.threads - length kept,
      )

  unfoldable pub turn_started : SequencedEvent V → ThreadState V → ThreadState V
  turn_started event t = record t { status = "active"; active_turn_id = event.turn_id }

  unfoldable pub turn_completed : SequencedEvent V → ThreadState V → ThreadState V
  turn_completed event t = record t {
    active_turn_id =
        if opt_eq t.active_turn_id event.turn_id || is_none event.turn_id
        then none
        else t.active_turn_id;
    status = "idle";
  }

module _ {V : Type 0} (j : Json V) where
  -- The text of a `status`, an object with a `type` or a plain text.
  abbrev pub status_text : V → Option String
  status_text v = or_else (get_str j v "type") (j.as_str v)

  abbrev pub is_terminal_status : Option String → Bool
  is_terminal_status none = false
  is_terminal_status (some s) = s == "completed" || s == "failed" || s == "interrupted"

  -- The id of the last turn whose status is not terminal.
  unfoldable pub last_open_turn : V → Option String
  last_open_turn raw = and_then (and_then (j.get raw "turns") j.as_array) λ turns.
      and_then (find (λ turn. not (is_terminal_status (get_str j turn "status"))) (reverse turns))
        λ turn. get_str j turn "id"

  -- The entry that a `thread/read` response stands for.
  unfoldable pub reconciled_thread : V → String → ℕ → Bool → ThreadState V
  unfolding last_open_turn
  reconciled_thread raw id sequence previous_subscribed =
      let active = last_open_turn raw in
      record {
        thread_id = id;
        status =
            if is_some active
            then "active"
            else unwrap_or (and_then (j.get raw "status") status_text) "unknown";
        active_turn_id = active;
        subscribed = previous_subscribed;
        ephemeral = unwrap_or (and_then (j.get raw "ephemeral") j.as_bool) false;
        last_sequence = sequence;
        raw_thread = some raw;
      }

  unfoldable pub reconcile_thread : V → ReducerState V → ReducerState V
  unfolding reconciled_thread
  reconcile_thread raw s = elim (get_str j raw "id") [
    | none ↦ s
    | some id ↦
        put_thread id
          (reconciled_thread raw id s.snapshot.at_sequence
            (is_some_and (thread_at id s) (λ t. t.subscribed)))
          s
  ]

  unfoldable pub started_thread : SequencedEvent V → ThreadState V → ThreadState V
  started_thread event t =
      let raw = and_then (Frame.params event.frame) (λ p. j.get p "thread") in
      record t {
        status = "idle";
        raw_thread = raw;
        ephemeral = unwrap_or (and_then (and_then raw (λ v. j.get v "ephemeral")) j.as_bool) false;
      }

  unfoldable pub status_changed : SequencedEvent V → ThreadState V → ThreadState V
  status_changed event t = record t {
    status =
        unwrap_or
          (and_then (and_then (Frame.params event.frame) (λ p. j.get p "status")) status_text)
          "unknown";
  }

  -- The `match` on the method, after `last_sequence` is written.
  unfoldable pub observe : SequencedEvent V → ThreadState V → ThreadState V
  unfolding started_thread status_changed turn_started turn_completed
  observe event t =
      let seen : ThreadState V = record t { last_sequence = event.sequence } in
      let m = unwrap_or (method event) "" in
      if m == "thread/started"
      then started_thread event seen
      else if m == "thread/status/changed"
      then status_changed event seen
      else if m == "turn/started"
      then turn_started event seen
      else if m == "turn/completed"
      then turn_completed event seen
      else seen

  -- The part of `apply` under the state's write lock.
  unfoldable pub apply_state : SequencedEvent V → ReducerState V → ReducerState V
  apply_state event s =
      let s' : ReducerState V = record s {
        snapshot = record (s.snapshot) { at_sequence = max s.snapshot.at_sequence event.sequence };
      } in
      elim event.thread_id [
        | none ↦ s'
        | some id ↦
            let t = observe event (entry id s') in
            if not (is_subscribing id s') && is_prunable t
            then drop_thread id s'
            else put_thread id t s'
      ]
