-- ===== src/Ingest/Tests.antt =====
-- Examples of the ingestor.
use codex_warden.Samples.{array}
use codex_warden.Samples.{as_array}
use codex_warden.Samples.{as_str}
use codex_warden.Samples.{as_u64}
use codex_warden.Samples.{get}
use codex_warden.Samples.{object}
use codex_warden.Protocol.Json.{Json, JsonLaws}
use codex_warden.Ingest.World.{is_ephemeral_error}
use codex_warden.Ingest.Discover.{resume_params, resumed}
use codex_warden.Ingest.Retries.{resumptions, resume-resumptions}
use codex_warden.Transport.Mock.{MockState, resume_error, start_state, set_resume_failures}
use codex_warden.Samples.{laws}
use codex_warden.Prelude.{
  refl, ◌+◌, ◌<◌, false, ◌≤◌, max, true, false, ◌≡◌, ◌≢◌, ◌⊎◌, arith, String, none, List, [], ◌∷◌,
  ok, err, length, insert, string_discrete, is_some_and, lookup,
}
use codex_warden.Store.Events.{empty}
use codex_warden.Transport.Request.{not_written}
use codex_warden.Ingest.Ingress.{AuthoritativeIngress}
use codex_warden.Ingest.World
use codex_warden.Ingest.World.{
  World, SubscriptionState, subscribing, thread_started, DiscoveryOutcome, already_managed,
}
use codex_warden.Ingest.Discover.{
  claim, refused, claimed, retained, is_retained, resume, out_of_rounds,
}
use codex_warden.Ingest.Reconcile.{Scan, scan_pages}
use codex_warden.Ingest.Scanning.{scan_pages_lem, InBounds}
use codex_warden.Ingest.Subscriptions.{claim_lem, resume_ends}
use codex_warden.Samples.{json, Value, nil}

abbrev quiet : AuthoritativeIngress Value
quiet = record {
  reducer = record {
    state = record { snapshot = record { at_sequence = 0; threads = [] }; subscribing = [] };
    lifecycle = [];
    lifecycle_capacity = 2;
    waiters = [];
    channels = 0;
  };
  store = empty;
  hub = record { lifecycle_topic = []; delta_topic = [] };
  delivered = [];
}

-- One request is not written, and the next is answered.
abbrev world : World Value
world = record {
  reducer = quiet.reducer.state;
  states = ("s", SubscriptionState.subscribed) ∷ [];
  watermark = 0;
  reactivation_verified = false;
  store = none;
  now = 0;
  elapsed = 0;
  script =
      record { before = []; reply = err (not_written "gone"); asleep = [] }
      ∷ record { before = []; reply = ok nil; asleep = [] }
      ∷ [];
  sent = [];
}

-- The cap is reached, and the thread is the one that is managed.
claim_example :
    let states : List (String × SubscriptionState) = ("s", SubscriptionState.subscribed) ∷ [] in
    let managed = is_some_and (lookup string_discrete "s" states) is_retained in
    let (states', outcome) = claim 1 "s" thread_started states in
    (retained states' ≤ 1)
    × (((managed ≡ true) × (states' ≡ states) × (outcome ≡ refused already_managed))
        ⊎ ((managed ≡ false)
            × (retained states ≡ 1)
            × (states' ≡ insert string_discrete "s" SubscriptionState.capacity_degraded states)
            × (outcome ≡ refused DiscoveryOutcome.capacity_degraded)
            × (retained states' ≡ retained states))
        ⊎ ((managed ≡ false)
            × (retained states < 1)
            × (states' ≡ insert string_discrete "s" (subscribing thread_started 1) states)
            × (outcome ≡ claimed)
            × (retained states' ≡ retained states + 1)))
claim_example =
    claim_lem 1 "s" thread_started (("s", SubscriptionState.subscribed) ∷ []) (omega arith)

resume_ends_example :
    let (w', end) = resume json World.default_config 9 1 "t" thread_started world in
    (end ≢ out_of_rounds) × (length w'.sent ≤ length world.sent + max 8 1)
resume_ends_example = resume_ends json World.default_config "t" thread_started world

-- The daemon lists an active thread that is newer than the watermark, and has no further page.
abbrev busy : Value
busy = json.object (
    ("id", json.text "t")
    ∷ ("updatedAt", json.nat 9)
    ∷ ("status", json.object (("type", json.text "active") ∷ []))
    ∷ [])

abbrev listing : World Value
listing = record world {
  script =
      record {
        before = [];
        reply = ok (json.object (("data", json.array (busy ∷ [])) ∷ []));
        asleep = [];
      }
      ∷ [];
}

abbrev unscanned : Scan
unscanned = record { candidates = []; newest = 5; cursor = none }

scanned_test :
    (scan_pages json World.default_config 4 5 unscanned listing).1
    ≡ ok (record { candidates = "t" ∷ []; newest = 9; cursor = none })
unfolding scan_pages World.call get object string_discrete as_array array as_str
    World.numeric_timestamp as_u64
scanned_test = refl

scan_pages_example :
    let (w', scanned) = scan_pages json World.default_config 4 5 unscanned listing in
    (length w'.sent ≤ length listing.sent + 4) × InBounds json World.default_config 5 scanned
scan_pages_example = scan_pages_lem json World.default_config 4 5 unscanned listing (omega arith)

-- A serde_json whose text of an error is the mock server's message.
abbrev telling : Json Value
telling = record json { display = λ _. "no rollout found" }

telling-JsonLaws : JsonLaws telling
telling-JsonLaws = record {
  get-object = laws.get-object;
  as_str-text = laws.as_str-text;
  to_rpc_id-of_rpc_id = laws.to_rpc_id-of_rpc_id;
}

telling_test : is_ephemeral_error telling (resume_error telling) ≡ true
unfolding is_ephemeral_error
telling_test = refl

-- Two resumptions are to fail.
abbrev failing : MockState Value
failing = set_resume_failures 2 start_state

resume-resumptions_example :
    let config = World.default_config in
    let (w', end) = resume telling config 9 1 "t" thread_started (record world {
      script = resumptions telling 9 (resume_params telling config "t") failing;
    }) in
    (end ≡ resumed) × (length w'.sent ≡ 3)
resume-resumptions_example =
    resume-resumptions telling telling-JsonLaws World.default_config "t" thread_started telling_test
      failing world (omega arith)
