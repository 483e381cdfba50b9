-- ===== src/Supervisor/Watch.antt =====
-- `check` and the monitor, and `initialize` with them
-- (src/supervisor/src/lib.rs).
use codex_warden.Prelude.{String, true, false, List, [], ◌∷◌, Result, ok, err, ◌≡◌, refl, inl, ◌==◌}
use codex_warden.Supervisor.Listing.{has_managed_daemon, gui_running}
use codex_warden.Supervisor.Ops.{
  SupervisorConfig, SupervisionState, MonitorEvent, Outcome, healthy, daemon_restarted,
  gui_restarted, incompatible, raised, stalled, Call, ProcessOps, Session, done,
}
use codex_warden.Supervisor.Supervise.{
  complaint, report, start_daemon, initialize, check_gui, check_version, check_listing, check,
  monitor, version_args, start_args, Wakeup, changed, sender_gone, interval,
}
use codex_warden.Supervisor.Rules.{
  Ensures, met_always, met_done, Ensures-bind, Ensures-if, Ensures-pure, Ensures-ps_environment,
  Ensures-output, Ensures-spawn, Ensures-sleep,
}
use codex_warden.Supervisor.Care.{asked, Careful, Attached}
use codex_warden.Supervisor.Conduct.{Kept, Seen, gui_attached-Seen}
use codex_warden.Supervisor.Success.{initialize-Initialized, launch_gui-Kept}

module _ {W : Type 0} (ops : ProcessOps W) (config : SupervisorConfig) where
  -- After a check: careful, and attached where it is healthy.
  abbrev pub Checked : MonitorEvent → Session W → Type 0
  Checked event s = Kept ops config s × (event ≡ healthy → Attached config s.calls)

  reported :
      (event : MonitorEvent) (r : Result (Unit {0}) String) (s : Session W)
      → (event ≡ healthy → ⊥)
      → Kept ops config s
      → Checked (report event r) s
  reported event (ok _) s other k = (k, λ e. absurd (other e))
  reported event (err error) s other k = (k, λ e. cc)

  check_gui-Checked :
      (p : String) (s : Session W)
      → Seen ops config (asked s.calls) p s
      → Ensures Checked (Kept ops config) (Kept ops config) (check_gui ops config p s)
  unfolding check_gui
  check_gui-Checked p s h =
      Ensures-bind _ _ _ (gui_attached-Seen ops config (asked s.calls) p s h) λ there t k.
        Ensures-if there _ _ _ (λ y. Ensures-pure _ _ (k.0.0.0, λ _. k.1 y))
          (λ away.
            Ensures-if (gui_running p config.gui_executable) _ _ _
              (λ on. Ensures-pure _ _ (k.0.0.0, λ e. cc))
              (λ off.
                Ensures-bind _ _ _ (launch_gui-Kept ops config t (k.0.0.0, (p, k.0.1, off)))
                  λ r u l. Ensures-pure _ _ (reported _ r u (λ e. cc) l)))

  check_version-Checked :
      (p : String) (r : Result (Unit {0}) String) (s : Session W)
      → Seen ops config (asked s.calls) p s
      → Ensures Checked (Kept ops config) (Kept ops config) (check_version ops config p r s)
  unfolding check_version
  check_version-Checked p (ok _) s h = check_gui-Checked p s h
  check_version-Checked p (err detail) s h = Ensures-pure _ _ (h.0.0, λ e. cc)

  check_listing-Checked :
      (r : Result String String) (s : Session W)
      → ((p : String) → r ≡ ok p → Seen ops config (asked s.calls) p s)
      → Kept ops config s
      → Ensures Checked (Kept ops config) (Kept ops config) (check_listing ops config r s)
  unfolding check_listing start_daemon
  check_listing-Checked (err e) s seen h = Ensures-pure _ _ (h, λ e. cc)
  check_listing-Checked (ok p) s seen h =
      Ensures-if (has_managed_daemon p config.standalone_codex) _ _ _
        (λ on.
          Ensures-bind {P = λ _ t. Seen ops config (asked t.calls) p t} _ _ _
            (Ensures-output ops s config.standalone_codex version_args
              λ r w e. ((((refl, refl), h), refl), (seen p refl).1))
            λ r t k. check_version-Checked p (complaint r) t k)
        (λ off.
          Ensures-bind {P = λ _. Kept ops config} _ _ _
            (Ensures-spawn ops s config.standalone_codex start_args []
              λ r w e. ((p, (seen p refl).1, inl (refl, refl, refl, off)), h))
            λ r t k. Ensures-pure _ _ (reported _ r t (λ e. cc) k))

  pub check-Checked :
      (s : Session W)
      → Kept ops config s
      → Ensures Checked (Kept ops config) (Kept ops config) (check ops config s)
  unfolding check
  check-Checked s h =
      Ensures-bind
        {P = λ r t.
          Kept ops config t × ((p : String) → r ≡ ok p → Seen ops config (asked t.calls) p t)}
        _ _ _ (Ensures-ps_environment ops s λ r w e. ((tt, h), λ p q. (((tt, h), refl), rw q refl)))
        λ r t k. check_listing-Checked r t k.1 k.0

  pub monitor-Kept :
      (wakeups : List Wakeup) (sent : List MonitorEvent) (s : Session W)
      → Kept ops config s
      → Ensures
          (λ _. Kept ops config)
          (Kept ops config)
          (Kept ops config)
          (monitor ops config wakeups sent s)
  unfolding monitor
  monitor-Kept [] sent s h = Ensures-pure _ _ h
  monitor-Kept (changed true ∷ rest) sent s h = Ensures-pure _ _ h
  monitor-Kept (changed false ∷ rest) sent s h = monitor-Kept rest sent s h
  monitor-Kept (sender_gone ∷ rest) sent s h = Ensures-pure _ _ h
  monitor-Kept (interval ∷ rest) sent s h =
      Ensures-bind {P = λ _. Kept ops config} _ _ _ (Ensures-sleep ops s config.monitor_interval h)
        λ _ t k.
          Ensures-bind _ _ _ (check-Checked t k) λ event u l. monitor-Kept rest (event ∷ sent) u l.0

  -- From the first call on: `initialize` and the monitor after it, whatever the processes do in
  -- between, start the daemon only where the latest listing of the processes lacks it and the GUI
  -- only where it lacks the GUI, ask the GUI to quit at most once and only where it is listed, spawn
  -- nothing else, and run the daemon's program for nothing but its version. This holds however they
  -- end, and for any wake-ups of the monitor.
  pub monitor-Careful :
      (w w' : W) (wakeups : List Wakeup)
      → let begun = (initialize ops config (record { world = w; calls = [] })).1.calls in
        Careful config begun
        × Careful config
            (monitor ops config wakeups [] (record { world = w'; calls = begun })).1.calls
  monitor-Careful w w' wakeups =
      let begun_calls = (initialize ops config (record { world = w; calls = [] })).1.calls in
      let begun =
        met_always (initialize ops config (record { world = w; calls = [] })) (λ _ _ h. h.0.0)
          (initialize-Initialized ops config (record { world = w; calls = [] }) (tt, refl)) in
      (
        begun,
        met_always _ (λ _ _ h. h)
            (monitor-Kept wakeups [] (record { world = w'; calls = begun_calls }) begun),
      )

  -- A check that finds all healthy has seen the attachment.
  abbrev pub Sighted : Outcome MonitorEvent → List Call → Type 0
  Sighted (done healthy) calls = Attached config calls
  Sighted _ calls = Unit

  Sighted-check :
      (r : Outcome MonitorEvent × Session W)
      → Ensures Checked (Kept ops config) (Kept ops config) r
      → Sighted r.0 r.1.calls
  Sighted-check (done healthy, s) h = h.met.1 refl
  Sighted-check (done daemon_restarted, s) h = tt
  Sighted-check (done gui_restarted, s) h = tt
  Sighted-check (done (incompatible _), s) h = tt
  Sighted-check (done (MonitorEvent.user_action_required _), s) h = tt
  Sighted-check (raised e, s) h = tt
  Sighted-check (stalled, s) h = tt

  -- Where `initialize` succeeds, its last call has shown an accepted connection of the socket, the
  -- latest listing shows the GUI in the mode that uses the daemon, and the state says that the GUI
  -- is attached and has a version that is not empty. The first part holds of a check that finds all
  -- healthy too, after any careful calls.
  pub initialize-Attached :
      (w : W) (state : SupervisionState)
      → (initialize ops config (record { world = w; calls = [] })).0 ≡ done state
      → (s : Session W) → Careful config s.calls
      → (Attached config (initialize ops config (record { world = w; calls = [] })).1.calls
          × (state.gui_attached ≡ true)
          × ((state.daemon_version == "") ≡ false))
        × Sighted (check ops config s).0 (check ops config s).1.calls
  initialize-Attached w state e s h =
      let met =
        met_done _ state
          (initialize-Initialized ops config (record { world = w; calls = [] }) (tt, refl)) e in
      ((met.0.1, met.1, met.2), Sighted-check _ (check-Checked s h))
