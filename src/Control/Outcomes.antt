-- ===== src/Control/Outcomes.antt =====
-- What the controller resends, and what its answers stand for (src/control/src/lib.rs).
use codex_warden.Prelude.{
  ℕ, zero, suc, ◌≤◌, String, Bool, true, false, Option, none, List, [], ◌∷◌, ◌⊎◌, inl, inr, ◌≡◌,
  refl, ap, sym, subst, ◌∙◌, arith, get_elem?, take, drop, All, map, unwrap_or, ok, err, add64,
  is_some, is_none, ◌&&◌, ◌||◌,
}
use codex_warden.Protocol.Json.{Json}
use codex_warden.Protocol.Event.{SequencedEvent}
use codex_warden.Transport.Request.{
  RequestError, not_written, written_outcome_unknown, timed_out, closed, Reply, is_not_written,
  is_ok,
}
use codex_warden.Control.Actions.{
  ControlConfig, ActionTarget, turn, thread, ActionOutcome, confirmed, outcome_unknown, Exchange,
  Session, ingest_events, call, send_not_written_safe, steer, start, started_outcome, starts,
  take_correlation, register, response_turn,
}

module _ {A : Type 0} where
  -- The same request again and again.
  abbrev pub copies : ℕ → A → List A → List A
  copies zero x xs = xs
  copies (suc n) x xs = copies n x (x ∷ xs)

module _ {V : Type 0} (j : Json V) where
  -- The replies of the daemon to come.
  abbrev pub replies : Session V → List (Reply V)
  replies s = map (λ (x : Exchange V). x.reply) s.script

  pub ingest_events-far :
      (es : List (SequencedEvent V)) (s : Session V)
      → ((ingest_events j es s).script ≡ s.script)
        × ((ingest_events j es s).sent ≡ s.sent)
        × ((ingest_events j es s).next_correlation ≡ s.next_correlation)
  unfolding ingest_events
  ingest_events-far [] s = (refl, refl, refl)
  ingest_events-far (e ∷ es) s = ingest_events-far es _

  -- One exchange: a request is sent, and the first reply to come is taken.
  pub record Exchanged (m : String) (params : V) (s s' : Session V) (reply : Reply V) : Type 0 where
    pub sends : s'.sent ≡ (m, params) ∷ s.sent
    pub takes : reply ≡ unwrap_or (get_elem? (replies s) 0) (err closed)
    pub leaves : replies s' ≡ drop 1 (replies s)
    pub keeps : s'.next_correlation ≡ s.next_correlation

  pub call-Exchanged :
      (m : String) (params : V) (s : Session V)
      → Exchanged m params s (call j m params s).0 (call j m params s).1
  unfolding call
  call-Exchanged m params s = go s.script refl
    where
      go :
          (script : List (Exchange V))
          → s.script ≡ script
          → Exchanged m params s (call j m params s).0 (call j m params s).1
      go [] q = record {
        sends = rw (q, call) refl;
        takes = rw (q, call) refl;
        leaves = rw (q, call) (ap (map (λ (y : Exchange V). y.reply)) q);
        keeps = rw (q, call) refl;
      }
      go (x ∷ rest) q =
          let (script, sent, correlation) =
            ingest_events-far x.meanwhile
              (record s { sent = (m, params) ∷ s.sent; script = rest }) in
          record {
            sends = rw (q, call) sent;
            takes = rw (q, call) refl;
            leaves = rw (q, call) (ap (map (λ (y : Exchange V). y.reply)) script);
            keeps = rw (q, call) correlation;
          }

  -- What the loop of retries comes to, from the replies to come.
  pub record Retried (left n : ℕ) (m : String) (params : V) (s s' : Session V) (reply : Reply V)
      : Type 0 where
    pub within : n ≤ left
    -- The request was sent `n + 1` times, and nothing else.
    pub sends : s'.sent ≡ copies (suc n) (m, params) s.sent
    pub unwritten : All (λ r. is_not_written r ≡ true) (take n (replies s))
    pub takes : reply ≡ unwrap_or (get_elem? (replies s) n) (err closed)
    pub leaves : replies s' ≡ drop (suc n) (replies s)
    pub ends : (is_not_written reply ≡ false) ⊎ (n ≡ left)
    pub keeps : s'.next_correlation ≡ s.next_correlation

  stop :
      (left : ℕ) (m : String) (params : V) (s s' : Session V) (reply : Reply V)
      → Exchanged m params s s' reply
      → (is_not_written reply ≡ false) ⊎ (0 ≡ left)
      → Retried left 0 m params s s' reply
  stop left m params s s' reply x h = record {
    within = omega arith;
    sends = x.sends;
    unwritten = tt;
    takes = x.takes;
    leaves = x.leaves;
    ends = h;
    keeps = x.keeps;
  }

  Exchanged-replies :
      (m : String) (params : V) (s s' : Session V) (reply : Reply V)
      → Exchanged m params s s' reply
      → is_not_written reply ≡ true
      → replies s ≡ reply ∷ replies s'
  Exchanged-replies m params s s' reply x w = go (replies s) x.takes x.leaves
    where
      go :
          (l : List (Reply V))
          → reply ≡ unwrap_or (get_elem? l 0) (err closed)
          → replies s' ≡ drop 1 l
          → l ≡ reply ∷ replies s'
      go [] e d = ground (arith, ap is_not_written e)
      go (y ∷ ys) e d = cc

  again :
      (left n : ℕ) (m : String) (params : V) (s s' s'' : Session V) (first reply : Reply V)
      → Exchanged m params s s' first
      → is_not_written first ≡ true
      → Retried left n m params s' s'' reply
      → Retried (suc left) (suc n) m params s s'' reply
  again left n m params s s' s'' first reply x w r = record {
    within = omega (arith, r.within);
    sends = r.sends ∙ ap (copies (suc n) (m, params)) x.sends;
    unwritten =
        subst (λ l. All (λ r. is_not_written r ≡ true) (take (suc n) l))
          (sym (Exchanged-replies m params s s' first x w)) (w, r.unwritten);
    takes =
        r.takes
        ∙ ap (λ l. unwrap_or (get_elem? l (suc n)) (err closed))
            (sym (Exchanged-replies m params s s' first x w));
    leaves = r.leaves ∙ ap (drop (suc (suc n))) (sym (Exchanged-replies m params s s' first x w));
    ends = elim r.ends [ inl e ↦ inl e | inr e ↦ inr (ap suc e) ];
    keeps = r.keeps ∙ x.keeps;
  }

  -- A request is resent only while the daemon's replies are `NotWritten`, and at most `left` times.
  -- The loop returns the first reply that is something else, or the last one.
  pub send_not_written_safe_lem :
      (left : ℕ) (m : String) (params : V) (s : Session V)
      → let (s', reply) = send_not_written_safe j left m params s in
        (n : ℕ) × Retried left n m params s s' reply
  unfolding send_not_written_safe
  send_not_written_safe_lem zero m params s =
      (0, stop 0 m params s _ _ (call-Exchanged m params s) (inr refl))
  send_not_written_safe_lem (suc left) m params s =
      go (call j m params s).1 refl (call-Exchanged m params s)
        (send_not_written_safe_lem left m params (call j m params s).0)
    where
      go :
          (reply : Reply V)
          → (call j m params s).1 ≡ reply
          → Exchanged m params s (call j m params s).0 reply
          → (n : ℕ) × Retried left n m params
              (call j m params s).0
              (send_not_written_safe j left m params (call j m params s).0).0
              (send_not_written_safe j left m params (call j m params s).0).1
          → (n : ℕ) × Retried
              (suc left)
              n
              m
              params
              s
              (send_not_written_safe j (suc left) m params s).0
              (send_not_written_safe j (suc left) m params s).1
      go (ok v) q x h =
          rw (q, send_not_written_safe) (0, stop (suc left) m params s _ _ x (inl refl))
      go (err (not_written d)) q x (n, r) =
          rw (q, send_not_written_safe) (suc n, again left n m params s _ _ _ _ x refl r)
      go (err (written_outcome_unknown i k d)) q x h =
          rw (q, send_not_written_safe) (0, stop (suc left) m params s _ _ x (inl refl))
      go (err (RequestError.rejected k e)) q x h =
          rw (q, send_not_written_safe) (0, stop (suc left) m params s _ _ x (inl refl))
      go (err (timed_out k)) q x h =
          rw (q, send_not_written_safe) (0, stop (suc left) m params s _ _ x (inl refl))
      go (err closed) q x h =
          rw (q, send_not_written_safe) (0, stop (suc left) m params s _ _ x (inl refl))

module _ {V : Type 0} where
  abbrev pub target_of : ActionOutcome V → ActionTarget
  target_of (confirmed target _) = target
  target_of (ActionOutcome.rejected target _ _) = target
  target_of (outcome_unknown target _) = target

  abbrev pub is_confirmed : ActionOutcome V → Bool
  is_confirmed (confirmed _ _) = true
  is_confirmed _ = false

  abbrev pub is_unknown : ActionOutcome V → Bool
  is_unknown (outcome_unknown _ _) = true
  is_unknown _ = false

  -- The request may have reached the daemon, and no answer says so.
  abbrev pub is_ambiguous : Reply V → Bool
  is_ambiguous (err (written_outcome_unknown _ _ _)) = true
  is_ambiguous (err (timed_out _)) = true
  is_ambiguous _ = false

module _ {V : Type 0} (j : Json V) (config : ControlConfig) where
  abbrev pub steer_params : String → String → List V → V
  steer_params thread_id turn_id input = j.object (
      ("threadId", j.text thread_id)
      ∷ ("expectedTurnId", j.text turn_id)
      ∷ ("input", j.array input)
      ∷ [])

  -- The outcome of steering keeps the target, and is confirmed exactly if the last reply is an
  -- answer, and unknown exactly if that reply leaves open whether the request was written. Such a
  -- reply is the last, so that the request is not sent again.
  pub steer_lem :
      (thread_id turn_id : String) (input : List V) (s : Session V)
      → let (s', outcome) = steer j config thread_id turn_id input s in
        (n : ℕ) × (reply : Reply V) × Retried j config.not_written_retries n "turn/steer"
          (steer_params thread_id turn_id input)
          (record s { next_correlation = add64 s.next_correlation 1 })
          s'
          reply
        × (target_of outcome ≡ turn thread_id turn_id)
        × (is_confirmed outcome ≡ is_ok reply)
        × (is_unknown outcome ≡ is_ambiguous reply)
  unfolding steer
  steer_lem thread_id turn_id input s =
      let (n, r) =
        send_not_written_safe_lem j config.not_written_retries "turn/steer"
          (steer_params thread_id turn_id input)
          (record s { next_correlation = add64 s.next_correlation 1 }) in
      (n, _, r, ground arith, ground arith, ground arith)

  abbrev pub start_params : String → List V → V
  start_params thread_id input =
      j.object (("threadId", j.text thread_id) ∷ ("input", j.array input) ∷ [])

  -- The turn id that a reply to `turn/start` names.
  abbrev pub named_turn : Reply V → Option String
  named_turn (ok response) = response_turn j response
  named_turn (err _) = none

  -- The session in which the action of a thread waits for the start of a turn.
  abbrev pub awaiting_start : String → Session V → Session V
  awaiting_start thread_id s = (register (starts thread_id) (take_correlation s).0).0

  -- Starting a turn sends nothing but `turn/start`, and sends it again only while the replies are
  -- `NotWritten`. The outcome keeps the target. It is confirmed exactly if the last reply names the
  -- turn that was created, whatever events come in the correlation window, and unknown exactly if
  -- the reply is an answer without a turn or leaves open whether the request was written.
  pub start_lem :
      (thread_id : String) (input : List V) (window : List (SequencedEvent V)) (s : Session V)
      → let (s', outcome) = start j config thread_id input window s in
        (n : ℕ) × (sent : Session V) × (reply : Reply V) × Retried j config.not_written_retries n
          "turn/start"
          (start_params thread_id input)
          (awaiting_start thread_id s)
          sent
          reply
        × (s'.sent ≡ sent.sent)
        × (target_of outcome ≡ thread thread_id)
        × (is_confirmed outcome ≡ is_some (named_turn reply))
        × (is_unknown outcome ≡ is_ambiguous reply || (is_ok reply && is_none (named_turn reply)))
  unfolding start started_outcome
  start_lem thread_id input window s =
      let (n, r) =
        send_not_written_safe_lem j config.not_written_retries "turn/start"
          (start_params thread_id input) (awaiting_start thread_id s) in
      let kept =
        (ingest_events-far j window
          (send_not_written_safe j config.not_written_retries "turn/start"
            (start_params thread_id input) (awaiting_start thread_id s)).0).1 in
      (n, _, _, r, ground (arith, kept), ground arith, ground arith, ground arith)
