-- ===== src/Control/Evidence.antt =====
-- What a confirmed interrupt rests on (`interrupt` and `reconcile_interrupt` of
-- src/control/src/lib.rs).
use mathlib.Core.List.{
  Mem, mem-append, mem-cons_self, mem-cons_of_mem, eq-or-mem_of_mem-cons, not-mem-nil,
}
use mathlib.Core.List.Perm
use mathlib.Core.Logic.Or
use codex_warden.Prelude.{
  get_elem?, drop, first, unwrap_or, ℕ, String, Bool, true, false, some, none, List, [], ◌∷◌, ◌⊎◌,
  inl, inr, ◌≡◌, refl, ap, sym, subst, ◌∙◌, arith, All, All-append, map, ok, err, lookup,
  ℕ_discrete, Bool-cases, Option-cases, zero, suc, ◌≢◌,
}
use codex_warden.Protocol.Json.{Json}
use codex_warden.Protocol.Event.{SequencedEvent}
use codex_warden.Reducer.Apply.{register_waiter, apply}
use codex_warden.Reducer.Waiters.{Waiter}
use codex_warden.Reducer.Wake.{wake_lem}
use codex_warden.Transport.Request.{
  RequestError, not_written, written_outcome_unknown, timed_out, closed, Reply,
}
use codex_warden.Control.Actions.{
  ControlConfig, turn, ActionOutcome, confirmed, outcome_unknown, Exchange, Session, ingest_events,
  call, send_not_written_safe, interrupt, reconcile_interrupt, completes, register,
  take_correlation, is_turn_terminal, read_params, observed, unknown,
}
use codex_warden.Control.Outcomes.{
  call-Exchanged, replies, ingest_events-far, send_not_written_safe_lem,
}

agree-prop : (a b : Bool) → IsProp (a ≡ b)
agree-prop a b = hlevel

module _ {V : Type 0} (c : ℕ) (p : SequencedEvent V → Bool) where
  -- A waiter on channel `c` waits for events that pass the test, and only such were sent to it.
  abbrev Waits : Waiter V → Type 0
  Waits w = w.sender ≡ c → (e : SequencedEvent V) → w.predicate e ≡ p e

  abbrev Told : ℕ × SequencedEvent V → Type 0
  Told d = d.0 ≡ c → p d.1 ≡ true

  Waits-prop : (w : Waiter V) → IsProp (Waits w)
  Waits-prop w = hlevel

  record Tuned (s : Session V) : Type 0 where
    waiting : (w : Waiter V) → Mem w s.reducer.waiters → Waits w
    told : All Told s.delivered

  sends-Told :
      (e : SequencedEvent V) (ready : List (Waiter V))
      → ((w : Waiter V) → Mem w ready → Waits w)
      → All (λ w. w.predicate e ≡ true) ready
      → All Told (map (λ w. (w.sender, e)) ready)
  sends-Told e [] h k = tt
  sends-Told e (w ∷ ws) h k = (
    λ q. sym (h w mem-cons_self q e) ∙ k.0,
    sends-Told e ws (λ v m. h v (mem-cons_of_mem w m)) k.1,
  )

  lookup-Told :
      (l : List (ℕ × SequencedEvent V)) (e : SequencedEvent V)
      → All Told l
      → lookup ℕ_discrete c l ≡ some e
      → p e ≡ true
  unfolding lookup
  lookup-Told [] e h q = cc
  lookup-Told ((k, v) ∷ l) e h q = elim (ℕ_discrete k c) [
    | yes r ↦ let same : v ≡ e = ground arith in ap p (sym same) ∙ h.0 r
    | no r ↦ lookup-Told l e h.1 (ground arith)
  ]

  module _ (j : Json V) where
    ingest_events-Tuned :
        (es : List (SequencedEvent V)) (s : Session V) → Tuned s → Tuned (ingest_events j es s)
    unfolding ingest_events apply
    ingest_events-Tuned [] s t = t
    ingest_events-Tuned (e ∷ es) s t =
        let (ready, perm, sends, fired, silent) = wake_lem e s.reducer.waiters in
        ingest_events-Tuned es _ (record {
          waiting = λ w m. t.waiting w ((Perm.mem_iff perm).1 (mem-append.1 (Or.inr m)));
          told = All-append Told s.delivered _ t.told (
              subst (All Told) (sym sends) (
                sends-Told e ready
                  (λ w m. t.waiting w ((Perm.mem_iff perm).1 (mem-append.1 (Or.inl m)))) fired));
        })

    call-Tuned : (m : String) (params : V) (s : Session V) → Tuned s → Tuned (call j m params s).0
    unfolding call
    call-Tuned m params s t = go s.script refl
      where
        go : (script : List (Exchange V)) → s.script ≡ script → Tuned (call j m params s).0
        go [] q = rw (q, call) (record { waiting = t.waiting; told = t.told })
        go (x ∷ rest) q =
            rw (q, call)
              (ingest_events-Tuned x.meanwhile _ (record { waiting = t.waiting; told = t.told }))

    send-Tuned :
        (left : ℕ) (m : String) (params : V) (s : Session V)
        → Tuned s
        → Tuned (send_not_written_safe j left m params s).0
    unfolding send_not_written_safe
    send-Tuned zero m params s t = call-Tuned m params s t
    send-Tuned (suc left) m params s t =
        go (call j m params s).1 refl (call-Tuned m params s t)
          (send-Tuned left m params _ (call-Tuned m params s t))
      where
        go :
            (reply : Reply V)
            → (call j m params s).1 ≡ reply
            → Tuned (call j m params s).0
            → Tuned (send_not_written_safe j left m params (call j m params s).0).0
            → Tuned (send_not_written_safe j (suc left) m params s).0
        go (ok v) q a b = rw (q, send_not_written_safe) a
        go (err (not_written d)) q a b = rw (q, send_not_written_safe) b
        go (err (written_outcome_unknown i k d)) q a b = rw (q, send_not_written_safe) a
        go (err (RequestError.rejected k e)) q a b = rw (q, send_not_written_safe) a
        go (err (timed_out k)) q a b = rw (q, send_not_written_safe) a
        go (err closed) q a b = rw (q, send_not_written_safe) a

module _ {V : Type 0} (j : Json V) where
  -- No channel that is registered or was sent to is one that the reducer still hands out.
  pub record Fresh (s : Session V) : Type 0 where
    pub waiting : (w : Waiter V) → Mem w s.reducer.waiters → w.sender ≢ s.reducer.channels
    pub told : All (λ d. d.0 ≢ s.reducer.channels) s.delivered

  Fresh-Told :
      (c : ℕ) (p : SequencedEvent V → Bool) (l : List (ℕ × SequencedEvent V))
      → All (λ d. d.0 ≢ c) l
      → All (Told c p) l
  Fresh-Told c p [] h = tt
  Fresh-Told c p (d ∷ l) h = ((λ q. absurd (h.0 q)), Fresh-Told c p l h.1)

  -- The session once it waits for the end of the turn.
  abbrev awaiting_end : String → String → Session V → Session V
  awaiting_end thread_id turn_id s =
      (register (completes thread_id turn_id) (take_correlation s).0).0

  register-Tuned :
      (thread_id turn_id : String) (s : Session V)
      → Fresh s
      → Tuned s.reducer.channels (completes thread_id turn_id) (awaiting_end thread_id turn_id s)
  unfolding register_waiter
  register-Tuned thread_id turn_id s f = record {
    waiting = λ w m.
        Or.elim (Waits-prop s.reducer.channels (completes thread_id turn_id) w) (mem-append.0 m)
          (λ old q. absurd (f.waiting w old q))
          (λ new q e.
            Or.elim (agree-prop _ _) (eq-or-mem_of_mem-cons new)
              (λ same. ap (λ (x : Waiter V). x.predicate e) same)
              (λ nowhere. absurd (not-mem-nil nowhere)));
    told = Fresh-Told s.reducer.channels (completes thread_id turn_id) s.delivered f.told;
  }

  get_elem?-drop : {A : Type 0} (k : ℕ) (xs : List A) → get_elem? (drop k xs) 0 ≡ get_elem? xs k
  get_elem?-drop zero xs = refl
  get_elem?-drop (suc k) [] = refl
  get_elem?-drop (suc k) (x ∷ xs) = get_elem?-drop k xs

  -- What an outcome of an interrupt that went from the session `s` to `s'` rests on.
  abbrev pub Justified : String → String → Session V → Session V → ActionOutcome V → Type 0
  Justified thread_id turn_id s s' (confirmed target evidence) =
      (target ≡ turn thread_id turn_id)
      × (((e : SequencedEvent V) × (lookup ℕ_discrete s.reducer.channels s'.delivered ≡ some e)
            × (completes thread_id turn_id e ≡ true)
            × (evidence.observed_sequence ≡ some e.sequence))
          ⊎ ((k : ℕ) × (reply : Reply V) × (first s'.sent
                ≡ some ("thread/read", read_params j thread_id))
              × (reply ≡ unwrap_or (get_elem? (replies j s) k) (err closed))
              × (is_turn_terminal j turn_id reply ≡ true)
              × (evidence.observed_sequence ≡ none)))
  Justified thread_id turn_id s s' (ActionOutcome.rejected target reason error) =
      target ≡ turn thread_id turn_id
  Justified thread_id turn_id s s' (outcome_unknown target evidence) =
      (target ≡ turn thread_id turn_id) × (evidence.observed_sequence ≡ none)

  reconcile_interrupt-Justified :
      (thread_id turn_id : String) (correlation : ℕ) (accepted : Bool) (k : ℕ) (s0 s : Session V)
      → replies j s ≡ drop k (replies j s0)
      → let (s', outcome) = reconcile_interrupt j thread_id turn_id correlation accepted s in
        Justified thread_id turn_id s0 s' outcome
  unfolding reconcile_interrupt unknown
  reconcile_interrupt-Justified thread_id turn_id correlation accepted k s0 s later =
      let x = call-Exchanged j "thread/read" (read_params j thread_id) s in
      let taken =
        x.takes
        ∙ ap (λ l. unwrap_or (get_elem? l 0) (err closed)) later
        ∙ ap (λ o. unwrap_or o (err closed)) (get_elem?-drop k (replies j s0)) in
      elim (Bool-cases
        (is_turn_terminal j turn_id (call j "thread/read" (read_params j thread_id) s).1)) [
          | inl t ↦ rw (t, reconcile_interrupt) (refl, inr (k, _, ap first x.sends, taken, t, refl))
          | inr t ↦ rw (t, reconcile_interrupt) (refl, refl)
        ]

module _ {V : Type 0} (j : Json V) (config : ControlConfig) where
  abbrev interrupt_params : String → String → V
  interrupt_params thread_id turn_id =
      j.object (("threadId", j.text thread_id) ∷ ("turnId", j.text turn_id) ∷ [])

  -- The session at the last reply to `turn/interrupt`, and that reply.
  abbrev answered : String → String → Session V → Session V × Reply V
  answered thread_id turn_id s =
      send_not_written_safe j config.not_written_retries "turn/interrupt"
        (interrupt_params thread_id turn_id) (awaiting_end j thread_id turn_id s)

  -- A confirmed interrupt rests on the event that was sent to the action's own waiter, which is a
  -- completion of the very turn and whose number the evidence names; or on a reply of the daemon in
  -- which that turn is terminal, where `thread/read` was the last request. Every outcome keeps the
  -- target, and an unknown one observes no event. The session hands out fresh channels.
  pub interrupt-Justified :
      (thread_id turn_id : String) (window : List (SequencedEvent V)) (s : Session V)
      → Fresh j s
      → let (s', outcome) = interrupt j config thread_id turn_id window s in
        Justified j thread_id turn_id s s' outcome
  unfolding interrupt observed register_waiter
  interrupt-Justified thread_id turn_id window s f =
      let (n, sent) =
        send_not_written_safe_lem j config.not_written_retries "turn/interrupt"
          (interrupt_params thread_id turn_id) (awaiting_end j thread_id turn_id s) in
      go (suc n) sent.leaves (answered thread_id turn_id s).1 refl
    where
      tuned :
          Tuned s.reducer.channels
            (completes thread_id turn_id)
            (ingest_events j window (answered thread_id turn_id s).0)
      tuned = ingest_events-Tuned s.reducer.channels (completes thread_id turn_id) j window _ (
          send-Tuned s.reducer.channels (completes thread_id turn_id) j config.not_written_retries
            "turn/interrupt" (interrupt_params thread_id turn_id) _
            (register-Tuned j thread_id turn_id s f))

      go :
          (k : ℕ)
          → replies j (answered thread_id turn_id s).0 ≡ drop k (replies j s)
          → (reply : Reply V) → (answered thread_id turn_id s).1 ≡ reply
          → Justified j thread_id turn_id s
              (interrupt j config thread_id turn_id window s).0
              (interrupt j config thread_id turn_id window s).1
      go k later (ok v) q =
          let kept = (ingest_events-far j window (answered thread_id turn_id s).0).0 in
          elim (Option-cases (
            lookup ℕ_discrete s.reducer.channels
              (ingest_events j window (answered thread_id turn_id s).0).delivered)) [
                | inl e ↦
                    rw (q, e, interrupt)
                      (reconcile_interrupt-Justified j thread_id turn_id _ true k s _
                        (ap (map (λ (x : Exchange V). x.reply)) kept ∙ later))
                | inr (event, e) ↦
                    let done =
                      lookup-Told s.reducer.channels (completes thread_id turn_id) _ event
                        tuned.told e in
                    rw (q, e, interrupt) (refl, inl (event, e, done, refl))
              ]
      go k later (err (not_written d)) q = rw (q, interrupt) refl
      go k later (err (written_outcome_unknown i m d)) q =
          rw (q, interrupt) (reconcile_interrupt-Justified j thread_id turn_id _ false k s _ later)
      go k later (err (RequestError.rejected m e)) q = rw (q, interrupt) refl
      go k later (err (timed_out m)) q =
          rw (q, interrupt) (reconcile_interrupt-Justified j thread_id turn_id _ false k s _ later)
      go k later (err closed) q = rw (q, interrupt) refl
