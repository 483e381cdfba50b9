-- ===== src/Core/Tests.antt =====
-- Examples of the whole.
use codex_warden.Ingest.Reconcile.{reconcile}
use codex_warden.Ingest.World.{call}
use codex_warden.Samples.{array}
use codex_warden.Samples.{as_array}
use codex_warden.Transport.Handle.{mark_reconciled}
use codex_warden.Prelude.{string_discrete}
use codex_warden.Protocol.Frame.{parse}
use codex_warden.Samples.{as_str}
use codex_warden.Samples.{get}
use codex_warden.Samples.{object}
use codex_warden.Transport.Reconnect.{connection_loop}
use codex_warden.Prelude.{lookup}
use codex_warden.Prelude.{
  ℕ, ◌+◌, ◌<◌, true, false, some, none, List, [], ◌∷◌, ◌≡◌, ◌⊎◌, refl, arith, ok, err, ltb, filter,
  first, sum_by, map, reverse,
}
use codex_warden.Protocol.Json.{notification}
use codex_warden.Reducer.Apply.{new, events_since, events, gap_too_old}
use codex_warden.Reducer.Replay.{lifecycle_of, latest}
use codex_warden.Streaming.Hub.{new_hub}
use codex_warden.Store.Events.{empty}
use codex_warden.Store.Events as Store
use codex_warden.Store.Accounting.{empty-Accounts}
use codex_warden.Store.Bounds.{IsBounded}
use codex_warden.Transport.Handshake
use codex_warden.Transport.Reconnect.{Attempt}
use codex_warden.Ingest.Ingress.{AuthoritativeIngress}
use codex_warden.Ingest.World.{World, SubscriptionState}
use codex_warden.Transport.Handle.{dropped}
use codex_warden.Supervisor.Ops.{ProcessOps}
use codex_warden.Core.Ingress.{arrives, is_signal, ingress_task}
use codex_warden.Core.Handle.{Config, default_config}
use codex_warden.Core.Run.{Happening, acts, shuts_down, finished, panicked, run}
use codex_warden.Core.Delivery.{handed, delivered_replay}
use codex_warden.Store.Events.{push, credit_thread}
use codex_warden.Prelude.{insert}
use codex_warden.Store.Prune.{record_event, prune, shrink, expire}
use codex_warden.Store.Queries.{Recorded, record_one, IsReported}
use mathlib.Core.List.{Mem, mem-cons_self}
use mathlib.Core.Logic.{◌∨₁◌}
use codex_warden.Protocol.Event.{SequencedEvent}
use codex_warden.Transport.Drive.{connecting}
use codex_warden.Transport.Handle.{spawn}
use codex_warden.Core.Service.{Service, query_sequence}
use codex_warden.Core.Answers.{delivered_query}
use codex_warden.Samples.{json, Value, nil, ten, started}

abbrev ingress : AuthoritativeIngress Value
ingress = record {
  reducer = record {
    state = record { snapshot = record { at_sequence = 0; threads = [] }; subscribing = [] };
    lifecycle = [];
    lifecycle_capacity = 2;
    waiters = [];
    channels = 0;
  };
  store = empty;
  hub = record { lifecycle_topic = []; delta_topic = [] };
  delivered = [];
}

empty-IsBounded : IsBounded ten Store.default_config empty
unfolding empty lookup
empty-IsBounded = record { global = omega arith; per_thread = λ t. omega arith }

-- A connection with an event in its handshake, which never gets its answer.
abbrev lone : Attempt Value
lone = record {
  gate = none;
  connect_error = none;
  handshake = record {
    opening_error = none;
    greetings =
        Handshake.got (ok (some (notification json "turn/started" nil))) 1 1 true
        ∷ Handshake.ended
        ∷ [];
    closing_error = none;
  };
  begun = 0;
  traffic = [];
  idle = none;
}

handed_bytes :
    sum_by ten (handed json (Handshake.default_config "/home" "1") (λ _. "long") (lone ∷ [])) ≡ 10
unfolding connection_loop Handshake.initialize parse get notification object string_discrete as_str
handed_bytes = refl

-- Ingress with a store that has recorded one event.
abbrev shown : AuthoritativeIngress Value
shown = record ingress {
  store = record { events = started ∷ []; bytes = 10; thread_bytes = ("t", 10) ∷ []; gaps = [] };
}

shown-Recorded : Recorded ten Store.default_config (started ∷ []) shown.store
unfolding record_event empty prune shrink expire push credit_thread insert lookup string_discrete
shown-Recorded = record_one started Recorded.start (omega arith) refl refl

delivered_replay_example :
    let given = handed json (Handshake.default_config "/home" "1") (λ _. "long") (lone ∷ []) in
    (b : AuthoritativeIngress Value) × (ingress_task json ten Store.default_config
        (map arrives given)
        ingress
        []
      ≡ some (b, reverse (filter is_signal given)))
    × (b.hub.lifecycle_topic ≡ lifecycle_of given)
    × ((events_since 0 b.reducer ≡ events (filter (λ e. ltb 0 e.sequence) b.hub.lifecycle_topic))
        ⊎ ((oldest : SequencedEvent Value) × (first (latest 2 b.hub.lifecycle_topic) ≡ some oldest)
            × (0 + 1 < oldest.sequence)
            × (events_since 0 b.reducer
                ≡ gap_too_old 0 (some oldest.sequence) b.reducer.state.snapshot)))
unfolding new empty
delivered_replay_example =
    delivered_replay json (Handshake.default_config "/home" "1") (λ _. "long") ten
      Store.default_config (lone ∷ []) ingress 2 0 (omega arith) refl refl (empty-Accounts ten)
      empty-IsBounded (omega (arith, handed_bytes))

-- The daemon lists no threads, then takes the unsubscriptions.
abbrev world : World Value
world = record {
  reducer = ingress.reducer.state;
  states = ("s", SubscriptionState.subscribed) ∷ [];
  watermark = 0;
  reactivation_verified = false;
  store = none;
  now = 0;
  elapsed = 0;
  script =
      record { before = []; reply = ok (json.object (("data", json.array []) ∷ [])); asleep = [] }
      ∷ [];
  sent = [];
}

abbrev config : Config
config = record (default_config "/home" "1") { manage_gui = false }

-- An action, and a shutdown of the operation's own.
abbrev operation : List (Happening Value)
operation = acts "turn/start" nil dropped ∷ shuts_down ∷ []

-- Processes that answer nothing.
abbrev ops : ProcessOps ℕ
ops = record {
  exists_path = λ path w. (false, w);
  ps_environment = λ w. (err "none", w);
  socket_users = λ socket w. (err "none", w);
  output = λ program args w. (err "none", w);
  spawn = λ program args env w. (err "none", w);
  graceful_quit_chatgpt = λ w. (err "none", w);
  now = λ w. w;
  sleep = λ d w. w + d;
}

exit_test :
    (run json config ten ops (ltb 0) (record { world = 0; calls = [] }) world true operation).0
    ≡ finished
unfolding run new new_hub reconcile call get object string_discrete as_array array mark_reconciled
exit_test = refl

panic_test :
    run json
      (record config { lifecycle_replay_capacity = 0 })
      ten
      ops
      (ltb 0)
      (record { world = 0; calls = [] })
      world
      true
      operation
    ≡ (panicked, none)
unfolding run new
panic_test = refl

abbrev given : List (SequencedEvent Value)
given = handed json (Handshake.default_config "/home" "1") (λ _. "long") (lone ∷ [])

-- A consumer of the whole.
abbrev service : Service Value
service = record {
  handle = record {
    transport = spawn;
    ingestor = world;
    shutdown_sent = false;
    stopped = false;
    supervision = none;
  };
  hub = ingress.hub;
  store = empty;
  controller = record {
    reducer = ingress.reducer;
    next_correlation = 1;
    script = [];
    sent = [];
    delivered = [];
  };
  health = record {
    phase = connecting;
    reconnect_attempts = 0;
    last_frame_sequence = 0;
    detail = none;
  };
}

delivered_query_example :
    (b : AuthoritativeIngress Value) × (ingress_task json ten Store.default_config
        (map arrives given)
        shown
        []
      ≡ some (b, reverse (filter is_signal given)))
    × (let answer = query_sequence (some "t") 0 none (record service { store = b.store }) in
        Mem started answer.events ∨₁ IsReported answer.gap started)
unfolding string_discrete
delivered_query_example =
    delivered_query json ten Store.default_config (Handshake.default_config "/home" "1")
      (λ _. "long") (lone ∷ []) (started ∷ []) shown started "t" 0 none service shown-Recorded
      (omega (arith, handed_bytes)) mem-cons_self refl refl
