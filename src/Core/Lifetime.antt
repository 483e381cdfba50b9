-- ===== src/Core/Lifetime.antt =====
-- The shutdown among what happens to a handle (src/core/src/lib.rs).
use codex_warden.Prelude.{
  ℕ, suc, ◌≤◌, String, Bool, true, false, not, ◌&&◌, Option, some, none, List, [], ◌∷◌, Result, ok,
  err, ◌≡◌, ◌∙◌, ◌⊎◌, inl, inr, refl, sym, subst, arith, Bool-cases,
}
use codex_warden.Protocol.Json.{Json}
use codex_warden.Protocol.Event.{SequencedEvent}
use codex_warden.Ingest.World.{World, IngestError, DiscoveryOutcome}
use codex_warden.Transport.Drive.{Command, ConnectionPhase}
use codex_warden.Transport.Handle.{
  TransportHandle, Awaited, request_action, request_inner, mark_reconciled, take_ingress, spawn,
}
use codex_warden.Transport.Handle as Transport
use codex_warden.Supervisor.Ops.{SupervisionState}
use codex_warden.Core.Handle.{Config, Handle, shutdown_as, shutdown}
use codex_warden.Core.Run.{
  Happening, acts, meddles, gates, health_changed, connection_ends, shuts_down, is_reconciling,
  scan, reconnect, happen, live,
}

module _ {V : Type 0} where
  -- The shutdowns among commands.
  abbrev pub shutdowns : List (Command V) → ℕ
  shutdowns [] = 0
  shutdowns (Command.shutdown channel ∷ cs) = suc (shutdowns cs)
  shutdowns (Command.request id m params response ∷ cs) = shutdowns cs
  shutdowns (Command.notify m params ∷ cs) = shutdowns cs
  shutdowns (Command.reconciled channel ∷ cs) = shutdowns cs

  -- A stopped handle has told the tasks and the transport, the transport once; another has not.
  abbrev pub Told : (stopped sent : Bool) → TransportHandle V → Type 0
  Told true sent t =
      (sent ≡ true)
      × (shutdowns t.commands ≤ 1)
      × ((t.is_open ≡ false) ⊎ (shutdowns t.commands ≡ 1))
  Told false sent t = (sent ≡ false) × (shutdowns t.commands ≡ 0)

  abbrev pub Orderly : Handle V → Type 0
  Orderly h = Told h.stopped h.shutdown_sent h.transport

  Told-same :
      (stopped sent : Bool) (t u : TransportHandle V)
      → shutdowns u.commands ≡ shutdowns t.commands
      → u.is_open ≡ t.is_open
      → Told stopped sent t
      → Told stopped sent u
  Told-same true sent t u e o h =
      (h.0, rw e (h.1), elim h.2 [ inl c ↦ inl (o ∙ c) | inr c ↦ inr (e ∙ c) ])
  Told-same false sent t u e o h = (h.0, e ∙ h.1)

  shutdowns-request_action :
      (method : String) (params : V) (awaited : Awaited V) (t : TransportHandle V)
      → let u = (request_action method params awaited t).0 in
        (shutdowns u.commands ≡ shutdowns t.commands) × (u.is_open ≡ t.is_open)
  unfolding request_inner
  shutdowns-request_action method params awaited t = elim (Bool-cases t.reconcile_ready) [
    | inl e ↦ elim (Bool-cases t.is_open) [
      | inl o ↦ rw (e, o) (refl, refl)
      | inr o ↦ rw (e, o) (refl, refl)
    ]
    | inr e ↦ rw e (refl, refl)
  ]

  shutdowns-mark_reconciled :
      (acknowledged : Bool) (t : TransportHandle V)
      → let u = (mark_reconciled acknowledged t).0 in
        (shutdowns u.commands ≡ shutdowns t.commands) × (u.is_open ≡ t.is_open)
  unfolding mark_reconciled
  shutdowns-mark_reconciled acknowledged t = elim (Bool-cases t.is_open) [
    | inl o ↦ rw o (refl, refl)
    | inr o ↦ rw o (refl, refl)
  ]

  shutdowns-shutdown :
      (t : TransportHandle V)
      → shutdowns t.commands ≡ 0
      → let u = Transport.shutdown t in
        (shutdowns u.commands ≤ 1) × ((u.is_open ≡ false) ⊎ (shutdowns u.commands ≡ 1))
  unfolding Transport.shutdown
  shutdowns-shutdown t none_ = elim (Bool-cases t.is_open) [
    | inl o ↦ rw o (omega (arith, none_), inr (omega (arith, none_)))
    | inr o ↦ rw o (omega (arith, none_), inl refl)
  ]

module _ {V : Type 0} (j : Json V) (config : Config) (encoded_len : SequencedEvent V → ℕ) where
  -- What a change leads to, if it returns: an orderly handle with the supervision kept.
  abbrev pub Leads : Option SupervisionState → Option (Handle V) → Type 0
  Leads sup none = Unit {0}
  Leads sup (some h) = Orderly h × (h.supervision ≡ sup)

  shutdown_as-Orderly :
      (stopped : Bool) (h : Handle V)
      → h.stopped ≡ stopped
      → Told stopped h.shutdown_sent h.transport
      → let h' = shutdown_as j config stopped h in
        (h'.stopped ≡ true) × Orderly h' × (h'.supervision ≡ h.supervision)
  unfolding shutdown_as
  shutdown_as-Orderly true h e o =
      (e, subst (λ b. Told b h.shutdown_sent h.transport) (sym e) o, refl)
  shutdown_as-Orderly false h e o =
      let (few, one) = shutdowns-shutdown h.transport o.1 in (refl, (refl, few, one), refl)

  pub shutdown-Orderly :
      (h : Handle V)
      → Orderly h
      → let h' = shutdown j config h in
        (h'.stopped ≡ true) × Orderly h' × (h'.supervision ≡ h.supervision)
  unfolding shutdown
  shutdown-Orderly h o = shutdown_as-Orderly h.stopped h refl o

  reconnect-Leads :
      (phase : ConnectionPhase) (acknowledged : Bool) (h : Handle V)
      → Orderly h
      → Leads h.supervision (reconnect j config encoded_len phase acknowledged h)
  unfolding reconnect
  reconnect-Leads phase acknowledged h o =
      by_test (is_reconciling phase && not h.transport.reconcile_ready)
    where
      by_scan :
          (r : Option (World V × Result (List (String × DiscoveryOutcome)) (IngestError V)))
          → Leads h.supervision (elim r [
            | none ↦ none
            | some (w, err _) ↦ some (record h { ingestor = w })
            | some (w, ok _) ↦ some (record h {
              ingestor = w;
              transport = (mark_reconciled acknowledged h.transport).0;
            })
          ])
      by_scan none = tt
      by_scan (some (w, err _)) = (o, refl)
      by_scan (some (w, ok _)) =
          let (e, same) = shutdowns-mark_reconciled acknowledged h.transport in
          (Told-same _ _ h.transport _ e same o, refl)

      by_test :
          (b : Bool)
          → Leads h.supervision (elim b [
            | false ↦ some h
            | true ↦ elim (scan j config encoded_len h.ingestor) [
              | none ↦ none
              | some (w, err _) ↦ some (record h { ingestor = w })
              | some (w, ok _) ↦ some (record h {
                ingestor = w;
                transport = (mark_reconciled acknowledged h.transport).0;
              })
            ]
          ])
      by_test false = (o, refl)
      by_test true = by_scan (scan j config encoded_len h.ingestor)

  happen-Leads :
      (x : Happening V) (h : Handle V)
      → Orderly h
      → Leads h.supervision (happen j config encoded_len x h)
  unfolding happen
  happen-Leads (acts method params awaited) h o =
      let (e, same) = shutdowns-request_action method params awaited h.transport in
      (Told-same _ _ h.transport _ e same o, refl)
  happen-Leads (meddles ms) h o = (o, refl)
  happen-Leads (gates ready) h o = (Told-same _ _ h.transport _ refl refl o, refl)
  happen-Leads (health_changed phase acknowledged) h o = reconnect-Leads phase acknowledged h o
  happen-Leads connection_ends h o = (closes h.stopped h.shutdown_sent h.transport o, refl)
    where
      closes :
          (stopped sent : Bool) (t : TransportHandle V)
          → Told stopped sent t
          → Told stopped sent (record t { is_open = false })
      closes true sent t told = (told.0, told.1, inl refl)
      closes false sent t told = told
  happen-Leads shuts_down h o = let (_, o', same) = shutdown-Orderly h o in (o', same)

  Leads-bind :
      {sup : Option SupervisionState} (r : Option (Handle V)) (f : Handle V → Option (Handle V))
      → Leads sup r
      → ((h : Handle V) → Orderly h → h.supervision ≡ sup → Leads sup (f h))
      → Leads sup (elim r [ none ↦ none | some h ↦ f h ])
  Leads-bind none f l g = tt
  Leads-bind (some h) f l g = g h l.0 l.1

  pub live-Leads :
      (operation : List (Happening V)) (h : Handle V)
      → Orderly h
      → Leads h.supervision (live j config encoded_len operation h)
  unfolding live
  live-Leads [] h o = (o, refl)
  live-Leads (x ∷ rest) h o =
      Leads-bind (happen j config encoded_len x h) (live j config encoded_len rest)
        (happen-Leads x h o)
        λ h' o' same.
          subst (λ sup. Leads sup (live j config encoded_len rest h')) same (live-Leads rest h' o')
