-- ===== src/Ingest/Scanning.antt =====
-- The bounds of the scan for updated threads (`reconcile` of src/ingest/src/lib.rs).
use codex_warden.Prelude.{
  ℕ, zero, suc, ◌+◌, ◌≤◌, ◌<◌, max, false, some, List, [], ◌∷◌, ◌++◌, ◌≡◌, refl, ap, arith, length,
  length-append, leb, ltb, ok, err, Result, Bool-cases, Option-cases, inl, inr, ◌||◌, ◌&&◌, is_none,
  and_then, unwrap_or,
}
use codex_warden.Protocol.Json.{Json, get_str}
use codex_warden.Transport.Request.{Reply}
use codex_warden.Ingest.World.{IngestConfig, IngestError, World, call, numeric_timestamp}
use codex_warden.Ingest.Reconcile.{Scan, scan_page, scan_pages, list_params}
use codex_warden.Ingest.Subscriptions.{call-sent}

module _ {V : Type 0} (j : Json V) (config : IngestConfig) where
  scan_page-limit :
      (previous : ℕ) (threads : List V) (s : Scan)
      → length s.candidates < config.reconcile_candidate_limit
      → (length (scan_page j config previous threads s).0.candidates
          ≤ config.reconcile_candidate_limit)
        × (s.newest ≤ (scan_page j config previous threads s).0.newest)
  unfolding scan_page
  scan_page-limit previous [] s h = (omega arith, omega arith)
  scan_page-limit previous (thread ∷ rest) s h = elim (Option-cases (get_str j thread "id")) [
    | inl e ↦ rw (e, scan_page) (scan_page-limit previous rest s h)
    | inr (id, e) ↦
        let updated = unwrap_or (numeric_timestamp j (j.get thread "updatedAt")) 0 in
        let taken : Scan = record s {
          newest = max s.newest updated;
          candidates = s.candidates ++ id ∷ [];
        } in
        let more = length-append s.candidates (id ∷ []) in
        elim (Bool-cases (ltb 0 previous && leb updated previous)) [
          | inl old ↦ rw (e, old, scan_page) (omega arith, omega arith)
          | inr new ↦
              elim (Bool-cases (leb config.reconcile_candidate_limit (length taken.candidates))) [
                | inl full ↦ rw (e, new, full, scan_page) (omega (arith, more), omega arith)
                | inr room ↦
                    let (few, later) = scan_page-limit previous rest taken (ground arith) in
                    rw (e, new, room, scan_page) (few, omega (arith, later))
              ]
        ]
  ]

  -- A failed scan, or one within the limit of candidates whose watermark is no earlier.
  abbrev pub InBounds : ℕ → Result Scan (IngestError V) → Type 0
  InBounds newest (ok s) =
      (length s.candidates ≤ config.reconcile_candidate_limit) × (newest ≤ s.newest)
  InBounds newest (err _) = Unit

  -- What a scan of so many pages comes to.
  abbrev pub Scanned : (pages previous : ℕ) → Scan → World V → Type 0
  Scanned pages previous s w =
      let (w', scanned) = scan_pages j config pages previous s w in
      (length w'.sent ≤ length w.sent + pages) × InBounds s.newest scanned

  InBounds-mono : (m n : ℕ) (r : Result Scan (IngestError V)) → m ≤ n → InBounds n r → InBounds m r
  InBounds-mono m n (ok s) h (few, later) = (few, omega arith)
  InBounds-mono m n (err e) h b = tt

  -- A page that was listed.
  listed :
      (pages previous : ℕ) (s : Scan) (w : World V) (result : V) (threads : List V)
      → leb config.reconcile_candidate_limit (length s.candidates) ≡ false
      → (call j "thread/list" (list_params j config s.cursor) w).1 ≡ ok result
      → and_then (j.get result "data") j.as_array ≡ some threads
      → ((s' : Scan)
          → length s'.candidates ≤ config.reconcile_candidate_limit
          → Scanned pages previous s' (call j "thread/list" (list_params j config s.cursor) w).0)
      → Scanned (suc pages) previous s w
  unfolding scan_pages
  listed pages previous s w result threads room answer found next =
      let (scanned, reached) = scan_page j config previous threads s in
      let cursor = get_str j result "nextCursor" in
      let s' : Scan = record scanned { cursor = cursor } in
      let sent = ap length (call-sent j "thread/list" (list_params j config s.cursor) w) in
      let (few, later) = scan_page-limit previous threads s (ground arith) in
      elim (Bool-cases (reached || is_none cursor)) [
        | inl stop ↦ rw (room, answer, found, stop, scan_pages) (omega (arith, sent), (few, later))
        | inr go_on ↦
            let (rest, bounds) = next s' few in
            rw (room, answer, found, go_on, scan_pages)
              (omega (arith, sent, rest), InBounds-mono _ _ _ later bounds)
      ]

  -- Whatever the daemon answers, the scan requests at most one page for each page of its bound. If
  -- it does not fail it holds no more candidates than its limit and no earlier watermark.
  pub scan_pages_lem :
      (pages previous : ℕ) (s : Scan) (w : World V)
      → length s.candidates ≤ config.reconcile_candidate_limit
      → let (w', scanned) = scan_pages j config pages previous s w in
        (length w'.sent ≤ length w.sent + pages) × InBounds s.newest scanned
  unfolding scan_pages
  scan_pages_lem zero previous s w h = (omega arith, (h, omega arith))
  scan_pages_lem (suc pages) previous s w h =
      elim (Bool-cases (leb config.reconcile_candidate_limit (length s.candidates))) [
        | inl full ↦ rw (full, scan_pages) (omega arith, (h, omega arith))
        | inr room ↦
            answered (call j "thread/list" (list_params j config s.cursor) w).1 refl room
              (λ s' k. scan_pages_lem pages previous s' _ k)
      ]
    where
      answered :
          (reply : Reply V)
          → (call j "thread/list" (list_params j config s.cursor) w).1 ≡ reply
          → leb config.reconcile_candidate_limit (length s.candidates) ≡ false
          → ((s' : Scan)
              → length s'.candidates ≤ config.reconcile_candidate_limit
              → Scanned pages previous s'
                  (call j "thread/list" (list_params j config s.cursor) w).0)
          → Scanned (suc pages) previous s w
      answered (err e) q room next =
          let sent = ap length (call-sent j "thread/list" (list_params j config s.cursor) w) in
          rw (room, q, scan_pages) (omega (arith, sent), tt)
      answered (ok result) q room next =
          elim (Option-cases (and_then (j.get result "data") j.as_array)) [
            | inl bad ↦
                let sent =
                  ap length (call-sent j "thread/list" (list_params j config s.cursor) w) in
                rw (room, q, bad, scan_pages) (omega (arith, sent), tt)
            | inr (threads, found) ↦ listed pages previous s w result threads room q found next
          ]
