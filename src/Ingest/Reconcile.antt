-- ===== src/Ingest/Reconcile.antt =====
-- `reconcile`, `release_if_idle` and `unsubscribe_all_best_effort` (src/ingest/src/lib.rs).
use codex_warden.Prelude.{
  ℕ, zero, suc, max, String, Bool, true, false, not, Option, some, none, List, [], ◌∷◌, ◌++◌, ◌==◌,
  ◌&&◌, ◌||◌, ltb, leb, length, any, and_then, is_some_and, is_none, unwrap_or, if◌then◌else◌, ok,
  err, Result, opt_eq,
}
use codex_warden.Protocol.Json.{Json, get_str, get_str_at}
use codex_warden.Protocol.Event.{SequencedEvent}
use codex_warden.Reducer.State.{reconcile_thread, is_terminal_status, set_subscribed, thread_at}
use codex_warden.Store.Events.{StoreConfig}
use codex_warden.Ingest.World.{
  IngestConfig, reconciliation, SubscriptionState, DiscoveryOutcome, IngestError, request,
  malformed_list, World, reduce, set_state, call, numeric_timestamp,
}
use codex_warden.Ingest.Discover.{discover, read_params, resume_params}

-- What the loop over pages carries.
pub record Scan : Type 0 where
  pub candidates : List String
  pub newest : ℕ
  pub cursor : Option String

module _ {V : Type 0} (j : Json V) (config : IngestConfig) where
  unfoldable pub thread_is_active : V → Bool
  thread_is_active thread =
      opt_eq (get_str_at j thread "status" "type") (some "active")
      || is_some_and (and_then (j.get thread "turns") j.as_array)
          (any (λ turn. not (is_terminal_status j (get_str j turn "status"))))

  -- The loop over the threads of a page. The flag says that the watermark was reached.
  unfoldable pub scan_page : ℕ → List V → Scan → Scan × Bool
  scan_page previous [] s = (s, false)
  scan_page previous (thread ∷ rest) s = elim (get_str j thread "id") [
    | none ↦ scan_page previous rest s
    | some id ↦
        let updated = unwrap_or (numeric_timestamp j (j.get thread "updatedAt")) 0 in
        let seen : Scan = record s { newest = max s.newest updated } in
        let taken : Scan = record seen { candidates = s.candidates ++ id ∷ [] } in
        let next = scan_page previous rest taken in
        if ltb 0 previous && leb updated previous
        then (seen, true)
        else if leb config.reconcile_candidate_limit (length taken.candidates)
        then (taken, false)
        else next
  ]

  abbrev pub list_params : Option String → V
  list_params cursor = j.object (
      ("cursor", elim cursor [ none ↦ j.null | some c ↦ j.text c ])
      ∷ ("limit", j.nat config.reconcile_page_size)
      ∷ ("sortKey", j.text "updated_at")
      ∷ ("sortDirection", j.text "desc")
      ∷ [])

  -- The loop over pages; the first argument is the number of pages left.
  unfoldable pub scan_pages : ℕ → ℕ → Scan → World V → World V × Result Scan (IngestError V)
  unfolding scan_page
  scan_pages zero previous s w = (w, ok s)
  scan_pages (suc pages) previous s w =
      let (w', reply, _) = call j "thread/list" (list_params s.cursor) w in
      elim (leb config.reconcile_candidate_limit (length s.candidates)) [
        | true ↦ (w, ok s)
        | false ↦ elim reply [
          | err e ↦ (w', err (request e))
          | ok result ↦ elim (and_then (j.get result "data") j.as_array) [
            | none ↦ (w', err malformed_list)
            | some threads ↦
                let (scanned, reached) = scan_page previous threads s in
                let cursor = get_str j result "nextCursor" in
                let s' : Scan = record scanned { cursor = cursor } in
                elim (reached || is_none cursor) [
                  | true ↦ (w', ok s')
                  | false ↦ scan_pages pages previous s' w'
                ]
          ]
        ]
      ]

  -- `release_if_idle`.
  unfoldable pub release_if_idle : String → World V → World V × Bool
  release_if_idle id w =
      let (w', reply, _) = call j "thread/unsubscribe" (resume_params j config id) w in
      if not config.release_idle_subscriptions || not w.reactivation_verified
      then (w, false)
      else if is_some_and (thread_at id w.reducer) (λ t. not (t.status == "idle"))
      then (w, false)
      else elim reply [
        | err _ ↦ (w', false)
        | ok _ ↦
            (reduce (set_subscribed id false) (set_state id SubscriptionState.released w'), true)
      ]

  abbrev pub is_subscribed : SubscriptionState → Bool
  is_subscribed SubscriptionState.subscribed = true
  is_subscribed _ = false

  -- `unsubscribe_all_best_effort`, over the states that it finds at its start.
  unfoldable pub unsubscribe_all : List (String × SubscriptionState) → World V → World V
  unsubscribe_all [] w = w
  unsubscribe_all ((id, state) ∷ rest) w = unsubscribe_all rest (
      if is_subscribed state
      then (call j "thread/unsubscribe" (resume_params j config id) w).0
      else w)

  module _ (encoded_len : SequencedEvent V → ℕ) (store_config : StoreConfig) where
    -- The loop over the candidates. `none` as for `discover`.
    unfoldable pub discover_active :
        List String → World V → Option (World V × List (String × DiscoveryOutcome))
    unfolding thread_is_active
    discover_active [] w = some (w, [])
    discover_active (id ∷ ids) w =
        let (w1, read, _) = call j "thread/read" (read_params j config id) w in
        let thread : Option V = elim read [ ok v ↦ j.get v "thread" | err _ ↦ none ] in
        elim thread [
          | none ↦ discover_active ids w1
          | some t ↦ elim (thread_is_active t) [
            | false ↦ discover_active ids w1
            | true ↦
                elim (discover j config encoded_len store_config id reconciliation
                  (reduce (reconcile_thread j t) w1)) [
                    | none ↦ none
                    | some (w2, outcome) ↦ elim (discover_active ids w2) [
                      | none ↦ none
                      | some (w3, outcomes) ↦ some (w3, (id, outcome) ∷ outcomes)
                    ]
                  ]
          ]
        ]

    unfoldable pub reconcile :
        World V → Option (World V × Result (List (String × DiscoveryOutcome)) (IngestError V))
    unfolding scan_pages discover_active
    reconcile w =
        let start : Scan = record { candidates = []; newest = w.watermark; cursor = none } in
        let (w1, scanned) = scan_pages config.reconcile_page_bound w.watermark start w in
        elim scanned [
          | err e ↦ some (w1, err e)
          | ok s ↦ elim (discover_active s.candidates (record w1 { watermark = s.newest })) [
            | none ↦ none
            | some (w2, outcomes) ↦ some (w2, ok outcomes)
          ]
        ]
