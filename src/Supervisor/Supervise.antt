-- ===== src/Supervisor/Supervise.antt =====
-- The supervisor over its process operations (src/supervisor/src/lib.rs).
use codex_warden.Prelude.{
  ℕ, zero, suc, ◌+◌, ◌/◌, String, Bool, true, false, not, ◌&&◌, List, [], ◌∷◌, ltb, ◌==◌, Result,
  ok, err, if◌then◌else◌,
}
use codex_warden.Supervisor.Listing.{
  application_bundle, has_managed_daemon, gui_running, gui_mode_enabled,
  has_accepted_socket_connection,
}
use codex_warden.Supervisor.Ops
use codex_warden.Supervisor.Ops.{
  SupervisorConfig, DaemonOwnership, attached, started, SupervisionState, MonitorEvent, healthy,
  daemon_restarted, gui_restarted, incompatible, SupervisorError, missing_standalone, missing_gui,
  daemon_command, incompatible_version, attachment_unverified, inspection, CommandOutput,
  ProcessOps, Step, Session, Outcome, done, raised, stalled, pure, raise, stall, try_as, ◌>>=◌,
  ◌>>◌,
}

abbrev pub version_args : List String
version_args = "app-server" ∷ "daemon" ∷ "version" ∷ []

abbrev pub start_args : List String
start_args = "app-server" ∷ "daemon" ∷ "start" ∷ []

abbrev pub gui_env : List (String × String)
gui_env = ("CODEX_APP_SERVER_USE_LOCAL_DAEMON", "1") ∷ ("CODEX_APP_SERVER_FORCE_CLI", "0") ∷ []

-- Rounds that a loop with a sleep of 100 ms in each can take before its deadline, and one more.
abbrev pub rounds : ℕ → ℕ
rounds timeout = suc (suc (timeout / 100))

-- A version that the daemon has given, or why it has not.
abbrev pub judge : Result CommandOutput String → Result String String
judge (ok o) =
    if o.success && not (o.stdout == "")
    then ok o.stdout
    else err (if o.stderr == "" then o.stdout else o.stderr)
judge (err error) = err error

-- The verdict of `check` on the daemon's version.
abbrev pub complaint : Result CommandOutput String → Result (Unit {0}) String
complaint (ok o) = if o.success then ok tt else err o.stderr
complaint (err error) = err error

abbrev pub accepts : Result String String → Bool
accepts (ok users) = has_accepted_socket_connection users
accepts (err _) = false

abbrev pub report : MonitorEvent → Result (Unit {0}) String → MonitorEvent
report event (ok _) = event
report event (err error) = MonitorEvent.user_action_required error

-- What the task of `monitor` selects: a change of the shutdown's value, its sender's end, or the
-- interval, after which it checks. A change to `false` has the sleep begin again.
pub data Wakeup : Type 0 where
  changed : (stop : Bool) → Wakeup
  sender_gone interval : Wakeup

module _ {W : Type 0} (ops : ProcessOps W) (config : SupervisorConfig) where
  unfoldable pub launch_gui : Step W (Result (Unit {0}) String)
  launch_gui =
      Ops.spawn ops "/usr/bin/open" ("-a" ∷ application_bundle config.gui_executable ∷ []) gui_env

  unfoldable pub gui_attached : String → Step W Bool
  gui_attached processes =
      if gui_mode_enabled processes config.gui_executable
      then (Ops.socket_users ops config.socket_path >>= λ users. pure (accepts users))
      else pure false

  -- `ps_environment().await.map_err(Inspection)?`.
  unfoldable pub ps : Step W String
  ps = do r ← Ops.ps_environment ops; try_as inspection r

  unfoldable pub start_daemon : Step W (Result (Unit {0}) String)
  start_daemon = Ops.spawn ops config.standalone_codex start_args []

  -- The loops: one round of `fuel` for each time that the deadline is compared.
  unfoldable pub judged : (String → Step W String) → Result String String → Step W String
  judged again (ok version) = pure version
  judged again (err detail) = do Ops.sleep ops 100; again detail

  unfoldable pub version_loop : (fuel deadline : ℕ) → String → Step W String
  unfolding judged
  version_loop zero deadline detail = stall
  version_loop (suc n) deadline detail = do
    t ← Ops.now ops
    if ltb t deadline
        then (Ops.output ops config.standalone_codex version_args >>= λ r.
            judged (version_loop n deadline) (judge r))
        else raise (incompatible_version detail)

  unfoldable pub wait_for_daemon_version : Step W String
  unfolding version_loop
  wait_for_daemon_version = do
    t ← Ops.now ops
    version_loop (rounds config.startup_timeout) (t + config.startup_timeout) ""

  unfoldable pub attachment_loop : (fuel deadline : ℕ) → Step W (Unit {0})
  unfolding ps gui_attached
  attachment_loop zero deadline = stall
  attachment_loop (suc n) deadline = do
    t ← Ops.now ops
    if ltb t deadline
        then (do
          processes ← ps
          there ← gui_attached processes
          if there then pure tt else (Ops.sleep ops 100 >> attachment_loop n deadline))
        else raise (
            attachment_unverified
              "ChatGPT did not establish an accepted connection to the managed daemon within the startup timeout")

  unfoldable pub wait_for_gui_attachment : Step W (Unit {0})
  unfolding attachment_loop
  wait_for_gui_attachment = do
    t ← Ops.now ops
    attachment_loop (rounds config.startup_timeout) (t + config.startup_timeout)

  -- The wait for the GUI to quit: the last listing.
  unfoldable pub quit_loop : (fuel deadline : ℕ) → String → Step W String
  unfolding ps
  quit_loop zero deadline processes = stall
  quit_loop (suc n) deadline processes = do
    t ← Ops.now ops
    if ltb t deadline
        then (do
          Ops.sleep ops 100
          listing ← ps
          if gui_running listing config.gui_executable
              then quit_loop n deadline listing
              else pure listing)
        else pure processes

  unfoldable pub quit_gui : String → Step W (Unit {0})
  unfolding quit_loop
  quit_gui processes = do
    r ← Ops.graceful_quit_chatgpt ops
    try_as SupervisorError.user_action_required r
    t ← Ops.now ops
    left ←
        quit_loop (rounds config.graceful_quit_timeout) (t + config.graceful_quit_timeout) processes
    if gui_running left config.gui_executable
        then raise (
            SupervisorError.user_action_required
              "ChatGPT ignored graceful quit; quit it manually. It was not force-killed.")
        else pure tt

  unfoldable pub restart_gui : String → Step W (Unit {0})
  unfolding quit_gui launch_gui wait_for_gui_attachment
  restart_gui processes = do
    if gui_running processes config.gui_executable then quit_gui processes else pure tt
    r ← launch_gui
    try_as SupervisorError.user_action_required r
    wait_for_gui_attachment

  unfoldable pub own_daemon : Step W DaemonOwnership
  unfolding ps start_daemon
  own_daemon = do
    processes ← ps
    if has_managed_daemon processes config.standalone_codex
        then pure attached
        else (do r ← start_daemon; try_as daemon_command r; pure started)

  unfoldable pub require : String → (String → SupervisorError) → Step W (Unit {0})
  require path missing = do
    found ← Ops.exists_path ops path
    if found then pure tt else raise (missing path)

  unfoldable pub attach_gui : Step W (Unit {0})
  unfolding ps gui_attached restart_gui
  attach_gui = do
    processes ← ps
    there ← if config.restart_gui_on_initialize then pure false else gui_attached processes
    if there then pure tt else restart_gui processes

  unfoldable pub initialize : Step W SupervisionState
  unfolding require own_daemon wait_for_daemon_version attach_gui
  initialize = do
    require config.standalone_codex missing_standalone
    require config.gui_executable missing_gui
    ownership ← own_daemon
    version ← wait_for_daemon_version
    attach_gui
    pure (record {
      daemon_ownership = ownership;
      daemon_version = version;
      gui_attached = true;
      daemon_left_running = true;
    })

  -- `check` once the daemon has given its version.
  unfoldable pub check_gui : String → Step W MonitorEvent
  unfolding gui_attached launch_gui
  check_gui processes = do
    there ← gui_attached processes
    if there
        then pure healthy
        else if gui_running processes config.gui_executable
        then pure (MonitorEvent.user_action_required "ChatGPT is not attached to the shared daemon")
        else (launch_gui >>= λ r. pure (report gui_restarted r))

  unfoldable pub check_version : String → Result (Unit {0}) String → Step W MonitorEvent
  check_version processes (ok _) = check_gui processes
  check_version processes (err detail) = pure (incompatible detail)

  unfoldable pub check_listing : Result String String → Step W MonitorEvent
  check_listing (err _) = pure (MonitorEvent.user_action_required "cannot inspect processes")
  check_listing (ok processes) =
      if has_managed_daemon processes config.standalone_codex
      then (Ops.output ops config.standalone_codex version_args >>= λ r.
          check_version processes (complaint r))
      else (start_daemon >>= λ r. pure (report daemon_restarted r))

  unfoldable pub check : Step W MonitorEvent
  unfolding check_listing check_version check_gui start_daemon
  check = do r ← Ops.ps_environment ops; check_listing r

  unfoldable pub monitor : List Wakeup → List MonitorEvent → Step W (List MonitorEvent)
  monitor [] sent = pure sent
  monitor (changed stop ∷ rest) sent = if stop then pure sent else monitor rest sent
  monitor (sender_gone ∷ rest) sent = pure sent
  monitor (interval ∷ rest) sent = do
    Ops.sleep ops config.monitor_interval
    event ← check
    monitor rest (event ∷ sent)

abbrev pub shutdown_state : SupervisionState → SupervisionState
shutdown_state state = record state { daemon_left_running = true }
