-- ===== src/Core/Operation.antt =====
-- How an operation of `CodexControl::run` ends, from the first reconciliation on
-- (src/core/src/lib.rs).
use codex_warden.Prelude.{
  ℕ, String, Bool, true, false, Option, some, none, List, [], ◌∷◌, Result, ok, err, ◌≡◌, ◌⊎◌, inl,
  inr, refl, ◌∙◌,
}
use codex_warden.Protocol.Json.{Json}
use codex_warden.Protocol.Event.{SequencedEvent}
use codex_warden.Ingest.World.{World, IngestError, DiscoveryOutcome}
use codex_warden.Transport.Request.{closed}
use codex_warden.Transport.Drive.{Command}
use codex_warden.Transport.Handle.{TransportHandle, mark_reconciled, spawn}
use codex_warden.Transport.Handle as Transport
use codex_warden.Supervisor.Ops.{SupervisionState}
use codex_warden.Core.Handle.{Config, ingest, transport, Handle, shutdown}
use codex_warden.Core.Run.{
  Happening, Exit, finished, failed, endless, scan, live, operate, open_gate,
}
use codex_warden.Core.Lifetime.{shutdowns, Orderly, Leads, live-Leads, shutdown-Orderly}

module _ {V : Type 0} (j : Json V) (config : Config) (encoded_len : SequencedEvent V → ℕ) where
  module _ (w : World V) (acknowledged : Bool) (operation : List (Happening V)) where
    -- The new handle, over the ingestor's world.
    abbrev pub fresh : Option SupervisionState → Handle V
    fresh sup = record {
      transport = record (spawn) { ingress = false };
      ingestor = w;
      shutdown_sent = false;
      stopped = false;
      supervision = sup;
    }

    -- The handle after a first reconciliation, marked as such.
    abbrev pub marked : Option SupervisionState → World V → Handle V
    marked sup w' = record (fresh sup) {
      ingestor = w';
      transport = (mark_reconciled acknowledged (fresh sup).transport).0;
    }

    -- The first reconciliation succeeds.
    abbrev pub Reconciles : World V → Type 0
    Reconciles w' =
        (outcomes : List (String × DiscoveryOutcome)) × (scan j config encoded_len w
          ≡ some (w', ok outcomes))

    -- Each end of `run` once the supervision is done, with what has been sent to the transport.
    abbrev pub Ending : Option SupervisionState → Exit V × Option (Handle V) → Type 0
    Ending sup (finished, some h) =
        ((w' : World V) × Reconciles w'
          × ((h' : Handle V) × (live j config encoded_len operation (marked sup w') ≡ some h')
              × (h ≡ shutdown j config h')))
        × (acknowledged ≡ true)
        × (h.stopped ≡ true)
        × Orderly h
        × (h.supervision ≡ sup)
    Ending sup (failed (ingest e), some h) =
        ((w' : World V) × (scan j config encoded_len w ≡ some (w', err e)))
        × (h.transport.commands ≡ Command.shutdown 0 ∷ [])
        × (h.transport.reconcile_ready ≡ false)
    Ending sup (failed (transport e), some h) =
        ((w' : World V) × Reconciles w')
        × (e ≡ closed)
        × (acknowledged ≡ false)
        × (shutdowns h.transport.commands ≡ 0)
    Ending sup (endless, some h) =
        (scan j config encoded_len w ≡ none)
        ⊎ ((w' : World V) × Reconciles w'
            × (live j config encoded_len operation (marked sup w') ≡ none))
    Ending sup _ = ⊥

    operate-Ending :
        (sup : Option SupervisionState) (w' : World V)
        → Reconciles w'
        → acknowledged ≡ true
        → Orderly (marked sup w')
        → Ending sup (operate j config encoded_len operation (marked sup w'))
    unfolding operate
    operate-Ending sup w' scanned a o =
        by_life (live j config encoded_len operation (marked sup w')) refl
          (live-Leads j config encoded_len operation (marked sup w') o)
      where
        by_life :
            (r : Option (Handle V))
            → live j config encoded_len operation (marked sup w') ≡ r
            → Leads j config encoded_len sup r
            → Ending sup (elim r [
              | none ↦ (endless, some (marked sup w'))
              | some h' ↦ (finished, some (shutdown j config h'))
            ])
        by_life none e l = inr (w', scanned, e)
        by_life (some h') e l =
            let (told, orderly, kept) = shutdown-Orderly j config encoded_len h' l.0 in
            ((w', scanned, (h', e, refl)), a, told, orderly, kept ∙ l.1)

    pub open_gate-Ending :
        (sup : Option SupervisionState)
        → Ending sup (open_gate j config encoded_len acknowledged operation (fresh sup))
    unfolding open_gate mark_reconciled Transport.shutdown
    open_gate-Ending sup = by_scan (scan j config encoded_len w) refl
      where
        by_mark :
            (w' : World V) (outcomes : List (String × DiscoveryOutcome)) (opened : Bool)
            → scan j config encoded_len w ≡ some (w', ok outcomes)
            → acknowledged ≡ opened
            → let h' : Handle V = record (fresh sup) {
              ingestor = w';
              transport = (mark_reconciled acknowledged (fresh sup).transport).0;
            } in
              Ending sup (elim opened [
                | false ↦ (failed (transport closed), some h')
                | true ↦ operate j config encoded_len operation h'
              ])
        by_mark w' outcomes false e a = ((w', (outcomes, e)), refl, a, refl)
        by_mark w' outcomes true e a = operate-Ending sup w' (outcomes, e) a (refl, refl)

        by_scan :
            (r : Option (World V × Result (List (String × DiscoveryOutcome)) (IngestError V)))
            → scan j config encoded_len w ≡ r
            → Ending sup (elim r [
              | none ↦ (endless, some (fresh sup))
              | some (w', err e) ↦ (
                failed (ingest e),
                some (record (fresh sup) {
                  ingestor = w';
                  transport = Transport.shutdown (fresh sup).transport;
                }),
              )
              | some (w', ok _) ↦
                  let (t, opened) = mark_reconciled acknowledged (fresh sup).transport in
                  let h' : Handle V = record (fresh sup) { ingestor = w'; transport = t } in
                  elim opened [
                    | false ↦ (failed (transport closed), some h')
                    | true ↦ operate j config encoded_len operation h'
                  ]
            ])
        by_scan none e = inl e
        by_scan (some (w', err x)) e = ((w', e), refl, refl)
        by_scan (some (w', ok outcomes)) e = by_mark w' outcomes acknowledged e refl
