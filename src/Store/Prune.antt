-- ===== src/Store/Prune.antt =====
-- `record`, `record_reconstructed_active_turn`, `prune_locked` and `evict_idle_content`
-- (src/store/src/lib.rs). `none` stands for a loop that has run out of its rounds.
use codex_warden.Prelude.{
  ℕ, zero, suc, ◌-◌, ◌%◌, String, Bool, true, false, Option, some, none, List, [], ◌∷◌, ltb, first,
  last, find, any, length, get_elem?, keys, map_option, is_some_and, is_none_or, is_none, unwrap_or,
  not, ◌&&◌, ◌==◌, if◌then◌else◌, opt_eq,
}
use codex_warden.Protocol.Json.{Json}
use codex_warden.Protocol.Frame.{is_delta}
use codex_warden.Protocol.Event.{SequencedEvent, method, reconstructed_active_turn}
use codex_warden.Store.Events.{StoreConfig, Inner, thread_total, remove_at, push}

module _ {ℓ} {A : Type ℓ} where
  -- `Iterator::position`.
  unfoldable pub position : (A → Bool) → List A → Option ℕ
  position p [] = none
  position p (x ∷ xs) = if p x then some 0 else map_option suc (position p xs)

-- A thread whose bytes are over the limit, the first in the order of the list, which stands for the
-- hash map's order; an entry's bytes are what its key looks up.
unfoldable pub over_limit : ℕ → List (String × ℕ) → Option String
over_limit limit m = find (λ t. ltb limit (thread_total t m)) (keys m)

module _ {V : Type 0} where
  -- A delta, of the thread that is over its limit if there is one.
  unfoldable pub restricted_delta : Option String → SequencedEvent V → Bool
  restricted_delta over_thread e =
      is_delta e.plane && is_none_or over_thread (λ t. opt_eq e.thread_id (some t))

  -- The place of the event that the second loop removes.
  unfoldable pub victim : Option String → List (SequencedEvent V) → ℕ
  unfolding position restricted_delta
  victim over_thread events = unwrap_or (position (restricted_delta over_thread) events) 0

  -- The test for a genuine `turn/started` of the same turn.
  unfoldable pub has_genuine_start : String → String → List (SequencedEvent V) → Bool
  has_genuine_start thread_id turn_id = any λ e.
      not e.reconstructed
      && opt_eq (method e) (some "turn/started")
      && opt_eq e.thread_id (some thread_id)
      && opt_eq e.turn_id (some turn_id)

module _ {V : Type 0} (encoded_len : SequencedEvent V → ℕ) (config : StoreConfig) where
  -- The first loop of `prune_locked`.
  unfoldable pub expire : ℕ → ℕ → Inner V → Inner V
  expire zero cutoff s = s
  expire (suc fuel) cutoff s =
      elim (is_some_and (first s.events) (λ e. ltb e.monotonic_ms cutoff)) [
        | true ↦ expire fuel cutoff (remove_at encoded_len 0 s)
        | false ↦ s
      ]

  -- The second loop.
  unfoldable pub shrink : ℕ → Inner V → Option (Inner V)
  unfolding over_limit
  shrink zero s = none
  shrink (suc fuel) s =
      let over_thread = over_limit config.per_thread_bytes s.thread_bytes in
      elim (not (ltb config.global_bytes s.bytes) && is_none over_thread) [
        | true ↦ some s
        | false ↦ shrink fuel (remove_at encoded_len (victim over_thread s.events) s)
      ]

  abbrev pub cutoff_of : List (SequencedEvent V) → ℕ
  cutoff_of events =
      unwrap_or (map_option (λ (e : SequencedEvent V). e.monotonic_ms) (last events)) 0
      - config.retention % 18446744073709551616

  unfoldable pub prune : Inner V → Option (Inner V)
  prune s =
      let expired = expire (length s.events) (cutoff_of s.events) s in
      shrink (suc (length expired.events)) expired

  -- `record` and `record_locked`.
  unfoldable pub record_event : SequencedEvent V → Inner V → Option (Inner V)
  record_event event s = prune (push encoded_len event s)

  -- The loop of `evict_idle_content`, from the back; `position` is the number of events left to see.
  unfoldable pub evict_idle_content : List String → ℕ → Inner V → Inner V
  evict_idle_content idle_threads zero s = s
  evict_idle_content idle_threads (suc position) s =
      let evict =
        is_some_and (get_elem? s.events position) λ e.
          is_delta e.plane && is_some_and e.thread_id (λ id. any (λ t. t == id) idle_threads) in
      evict_idle_content idle_threads position
        (if evict then remove_at encoded_len position s else s)

module _ {V : Type 0} (j : Json V) (encoded_len : SequencedEvent V → ℕ) (config : StoreConfig) where
  -- Whether the anchor was recorded, and the store. `none` is a panic or an endless loop.
  unfoldable pub record_reconstructed_active_turn :
      (now elapsed sequence : ℕ) → String → String → Inner V → Option (Bool × Inner V)
  record_reconstructed_active_turn now elapsed sequence thread_id turn_id s =
      if has_genuine_start thread_id turn_id s.events
      then some (false, s)
      else elim (reconstructed_active_turn j now sequence elapsed thread_id turn_id) [
        | none ↦ none
        | some event ↦ map_option (λ r. (true, r)) (record_event encoded_len config event s)
      ]
