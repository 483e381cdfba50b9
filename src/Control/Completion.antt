-- ===== src/Control/Completion.antt =====
-- A completion that comes before the response to an interrupt (`interrupt` of
-- src/control/src/lib.rs).
use mathlib.Core.List.{Mem, mem-append, mem-cons_self, eq-or-mem_of_mem-cons, not-mem-nil}
use mathlib.Core.List.Perm
use mathlib.Core.Logic.{◌∨₁◌, ∨₁_prop}
use mathlib.Core.Logic.Or
use codex_warden.Prelude.{
  ℕ, zero, suc, String, Bool, true, false, List, [], ◌∷◌, ◌++◌, inl, inr, ◌≡◌, refl, ap, sym, ◌∙◌,
  subst, arith, All, map, any, ok, lookup, ℕ_discrete, is_some, Option-cases,
}
use codex_warden.Protocol.Json.{Json}
use codex_warden.Protocol.Event.{SequencedEvent}
use codex_warden.Reducer.Apply.{register_waiter, apply}
use codex_warden.Reducer.Waiters.{Waiter, wake}
use codex_warden.Reducer.Wake.{wake_lem}
use codex_warden.Transport.Request.{Reply}
use codex_warden.Control.Actions.{
  ControlConfig, Exchange, Session, ingest_events, call, send_not_written_safe, interrupt,
  completes, ActionOutcome, confirmed, observed, register, take_correlation,
}

bool-prop : (a b : Bool) → IsProp (a ≡ b)
bool-prop a b = hlevel

module _ {V : Type 0} where
  -- Something was sent on the channel.
  abbrev Told : ℕ → List (ℕ × SequencedEvent V) → Type 0
  Told c l = is_some (lookup ℕ_discrete c l) ≡ true

  Told-left : (c : ℕ) (l m : List (ℕ × SequencedEvent V)) → Told c l → Told c (l ++ m)
  unfolding lookup
  Told-left c [] m h = cc
  Told-left c (x ∷ l) m h = ground (arith, Told-left c l m)

  Told-right : (c : ℕ) (l m : List (ℕ × SequencedEvent V)) → Told c m → Told c (l ++ m)
  unfolding lookup
  Told-right c [] m h = h
  Told-right c (x ∷ l) m h = ground (arith, Told-right c l m h)

  Told-sends :
      (e : SequencedEvent V) (w : Waiter V) (ready : List (Waiter V))
      → Mem w ready
      → Told w.sender (map (λ v. (v.sender, e)) ready)
  unfolding lookup
  Told-sends e w [] m = absurd (not-mem-nil m)
  Told-sends e w (v ∷ ready) m =
      Or.elim (bool-prop _ _) (eq-or-mem_of_mem-cons m)
        (λ same. ground (arith, ap (λ (x : Waiter V). x.sender) same))
        (λ later. ground (arith, Told-sends e w ready later))

  silent-Mem :
      (e : SequencedEvent V) (w : Waiter V) (ws : List (Waiter V))
      → All (λ v. v.predicate e ≡ false) ws
      → Mem w ws
      → w.predicate e ≡ false
  silent-Mem e w [] h m = absurd (not-mem-nil m)
  silent-Mem e w (v ∷ ws) h m =
      Or.elim (bool-prop _ _) (eq-or-mem_of_mem-cons m)
        (λ same. ap (λ (x : Waiter V). x.predicate e) same ∙ h.0)
        (λ later. silent-Mem e w ws h.1 later)

module _ {V : Type 0} (j : Json V) (w : Waiter V) where
  -- The waiter waits still, or its channel was sent something.
  abbrev Armed : Session V → Type 0
  Armed s = Mem w s.reducer.waiters ∨₁ Told w.sender s.delivered

  ingest_events-Told :
      (es : List (SequencedEvent V)) (s : Session V)
      → Told w.sender s.delivered
      → Told w.sender (ingest_events j es s).delivered
  unfolding ingest_events apply
  ingest_events-Told [] s h = h
  ingest_events-Told (e ∷ es) s h = ingest_events-Told es _ (Told-left w.sender s.delivered _ h)

  -- The waiter gets the event or waits on; it gets it if it is the one that it waits for.
  one-Armed :
      (e : SequencedEvent V) (s : Session V)
      → Mem w s.reducer.waiters
      → (Mem w (wake e s.reducer.waiters).0 × (w.predicate e ≡ false))
        ∨₁ Told w.sender (s.delivered ++ (wake e s.reducer.waiters).1)
  one-Armed e s m =
      let (ready, perm, sends, fired, silent) = wake_lem e s.reducer.waiters in
      Or.elim ∨₁_prop (mem-append.0 ((Perm.mem_iff perm).0 m))
        (λ fires. Or.inr (
          Told-right w.sender s.delivered _
            (subst (Told w.sender) (sym sends) (Told-sends e w ready fires))))
        (λ waits. Or.inl (waits, silent-Mem e w _ silent waits))

  ingest_events-Armed :
      (es : List (SequencedEvent V)) (s : Session V) → Armed s → Armed (ingest_events j es s)
  unfolding ingest_events apply
  ingest_events-Armed [] s h = h
  ingest_events-Armed (e ∷ es) s h = ingest_events-Armed es _ (
      Or.elim ∨₁_prop h (λ m. Or.elim ∨₁_prop (one-Armed e s m) (λ k. Or.inl k.0) (λ k. Or.inr k))
        (λ t. Or.inr (Told-left w.sender s.delivered _ t)))

  -- An event that the waiter waits for reaches its channel.
  ingest_events-reaches :
      (es : List (SequencedEvent V)) (s : Session V)
      → Armed s
      → any w.predicate es ≡ true
      → Told w.sender (ingest_events j es s).delivered
  unfolding ingest_events apply
  ingest_events-reaches [] s h found = cc
  ingest_events-reaches (e ∷ es) s h found =
      Or.elim (bool-prop _ _) h
        (λ m.
          Or.elim (bool-prop _ _) (one-Armed e s m)
            (λ k. ingest_events-reaches es _ (Or.inl k.0) (ground (arith, k.1)))
            (λ k. ingest_events-Told es _ k))
        (λ t. ingest_events-Told es _ (Told-left w.sender s.delivered _ t))

module _ {V : Type 0} (j : Json V) where
  ingest_events-append :
      (xs ys : List (SequencedEvent V)) (s : Session V)
      → ingest_events j (xs ++ ys) s ≡ ingest_events j ys (ingest_events j xs s)
  unfolding ingest_events
  ingest_events-append [] ys s = refl
  ingest_events-append (e ∷ xs) ys s = ingest_events-append xs ys _

  send-answered :
      (left : ℕ) (m : String) (params v : V) (s : Session V) (x : Exchange V)
      (rest : List (Exchange V))
      → s.script ≡ x ∷ rest
      → x.reply ≡ ok v
      → send_not_written_safe j left m params s ≡ (
        ingest_events j x.meanwhile (record s { sent = (m, params) ∷ s.sent; script = rest }),
        ok v,
      )
  unfolding send_not_written_safe call
  send-answered zero m params v s x rest q r = rw (q, r, call) refl
  send-answered (suc left) m params v s x rest q r = rw (q, r, call) refl

  -- The outcome is confirmed by an event.
  abbrev pub sees : ActionOutcome V → Bool
  sees (confirmed target evidence) = is_some evidence.observed_sequence
  sees _ = false

  module _ (config : ControlConfig) where
    -- An interrupt that the daemon answers is confirmed by an event if a completion of that turn is
    -- applied before the response or in the correlation window, in whichever order they come. The
    -- response is the first reply to come.
    pub interrupt-sees :
        (thread_id turn_id : String) (window : List (SequencedEvent V)) (s : Session V)
        (x : Exchange V) (rest : List (Exchange V)) (v : V)
        → s.script ≡ x ∷ rest
        → x.reply ≡ ok v
        → any (completes thread_id turn_id) (x.meanwhile ++ window) ≡ true
        → sees (interrupt j config thread_id turn_id window s).1 ≡ true
    unfolding interrupt observed register_waiter
    interrupt-sees thread_id turn_id window s x rest v q r found =
        let waiter : Waiter V = record {
          predicate = completes thread_id turn_id;
          sender = s.reducer.channels;
        } in
        let params = j.object (("threadId", j.text thread_id) ∷ ("turnId", j.text turn_id) ∷ []) in
        let waiting : Session V =
          (register (completes thread_id turn_id) (take_correlation s).0).0 in
        let sent : Session V = record waiting {
          sent = ("turn/interrupt", params) ∷ s.sent;
          script = rest;
        } in
        let answered =
          send-answered config.not_written_retries "turn/interrupt" params v waiting x rest q r in
        let told =
          ingest_events-reaches j waiter (x.meanwhile ++ window) sent
            (Or.inl (mem-append.1 (Or.inr mem-cons_self))) found in
        let told' =
          subst (λ (z : Session V). Told s.reducer.channels z.delivered)
            (ingest_events-append x.meanwhile window sent) told in
        let after : Session V =
          (send_not_written_safe j config.not_written_retries "turn/interrupt" params waiting).0 in
        let told'' : Told s.reducer.channels (ingest_events j window after).delivered =
          subst
            (λ (z : Session V × Reply V).
              Told s.reducer.channels (ingest_events j window z.0).delivered)
            (sym answered) told' in
        let replied = ap (λ (z : Session V × Reply V). z.1) answered in
        elim (Option-cases
          (lookup ℕ_discrete s.reducer.channels (ingest_events j window after).delivered)) [
            | inl e ↦ absurd (ground (arith, told'', e))
            | inr (event, e) ↦ rw (replied, e, interrupt) refl
          ]
