-- ===== src/Supervisor/Tests.antt =====
-- Examples of the supervisor, over processes that stay as they are.
use codex_warden.Prelude.{string_discrete}
use codex_warden.Supervisor.Listing.{gui_mode_enabled}
use codex_warden.Supervisor.Listing.{has_managed_daemon}
use codex_warden.Supervisor.Ops.{exists_path}
use codex_warden.Supervisor.Ops.{now}
use codex_warden.Supervisor.Ops.{output}
use codex_warden.Supervisor.Ops.{ps_environment}
use codex_warden.Supervisor.Ops.{socket_users}
use codex_warden.Supervisor.Ops.{◌>>=◌}
use codex_warden.Prelude.{
  ℕ, ◌+◌, String, true, false, List, [], ◌∷◌, ok, ◌≡◌, ◌≢◌, refl, ap, arith, ◌==◌,
}
use codex_warden.Supervisor.Listing.{application_bundle, trim, has_accepted_socket_connection}
use codex_warden.Supervisor.Ops.{
  SupervisorConfig, SupervisionState, attached, ProcessOps, Session, stalled,
}
use codex_warden.Supervisor.Supervise.{initialize, check, monitor, Wakeup, changed, interval}
use codex_warden.Supervisor.Care.{Careful, Attached}
use codex_warden.Supervisor.Watch.{Sighted, monitor-Careful, initialize-Attached}
use codex_warden.Supervisor.Clock.{IsTimed}
use codex_warden.Supervisor.Finish.{supervision_finishes}

abbrev config : SupervisorConfig
config = record {
  standalone_codex = "/c";
  socket_path = "/s";
  gui_executable = "/g";
  restart_gui_on_initialize = false;
  startup_timeout = 200;
  graceful_quit_timeout = 100;
  monitor_interval = 10;
}

abbrev listing : String
listing = "/c app-server --listen unix://\n/g CODEX_APP_SERVER_USE_LOCAL_DAEMON=1\n"

-- The world is its clock.
abbrev ops : ProcessOps ℕ
ops = record {
  exists_path = λ path w. (true, w);
  ps_environment = λ w. (ok listing, w);
  socket_users = λ socket w. (ok "COMMAND PID\nc 1\nc 2", w);
  output = λ program args w. (ok (record { success = true; stdout = "1"; stderr = "" }), w);
  spawn = λ program args env w. (ok tt, w);
  graceful_quit_chatgpt = λ w. (ok tt, w);
  now = λ w. w;
  sleep = λ d w. w + d;
}

ops-IsTimed : IsTimed ops
ops-IsTimed = record {
  exists_later = λ path w b v e. omega (arith, ap (λ q. q.1) e);
  ps_later = λ w r v e. omega (arith, ap (λ q. q.1) e);
  users_later = λ socket w r v e. omega (arith, ap (λ q. q.1) e);
  output_later = λ program args w r v e. omega (arith, ap (λ q. q.1) e);
  spawn_later = λ program args env w r v e. omega (arith, ap (λ q. q.1) e);
  quit_later = λ w r v e. omega (arith, ap (λ q. q.1) e);
  sleep_later = λ d w. omega arith;
}

bundle_test : application_bundle "/A/C.app/Contents/C" ≡ "/A/C.app"
unfolding application_bundle
bundle_test = refl

trim_test : trim " a b\t" ≡ "a b"
unfolding trim string_discrete
trim_test = refl

accepted_test : has_accepted_socket_connection "COMMAND\r\nc 1\n\n" ≡ false
unfolding has_accepted_socket_connection string_discrete
accepted_test = refl

abbrev wakeups : List Wakeup
wakeups = interval ∷ changed false ∷ interval ∷ changed true ∷ []

monitor-Careful_example :
    Careful config (initialize ops config (record { world = 0; calls = [] })).1.calls
    × Careful config
        (monitor ops config wakeups [] (record {
          world = 9;
          calls = (initialize ops config (record { world = 0; calls = [] })).1.calls;
        })).1.calls
monitor-Careful_example = monitor-Careful ops config 0 9 wakeups

abbrev state : SupervisionState
state = record {
  daemon_ownership = attached;
  daemon_version = "1";
  gui_attached = true;
  daemon_left_running = true;
}

initialize-Attached_example :
    (Attached config (initialize ops config (record { world = 0; calls = [] })).1.calls
      × (true ≡ true)
      × (("1" == "") ≡ false))
    × Sighted ops config
        (check ops config (record { world = 3; calls = [] })).0
        (check ops config (record { world = 3; calls = [] })).1.calls
unfolding initialize ◌>>=◌ exists_path ps_environment has_managed_daemon now output string_discrete
    gui_mode_enabled socket_users has_accepted_socket_connection
initialize-Attached_example =
    initialize-Attached ops config 0 state refl (record { world = 3; calls = [] }) tt

supervision_finishes_example :
    let s : Session ℕ = record { world = 0; calls = [] } in
    ((initialize ops config s).0 ≢ stalled)
    × ((check ops config s).0 ≢ stalled)
    × ((monitor ops config wakeups [] s).0 ≢ stalled)
supervision_finishes_example =
    supervision_finishes ops config ops-IsTimed (record { world = 0; calls = [] }) wakeups []
