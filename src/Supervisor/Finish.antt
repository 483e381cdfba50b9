-- ===== src/Supervisor/Finish.antt =====
-- The supervisor comes to an end whatever the processes answer (src/supervisor/src/lib.rs).
use codex_warden.Prelude.{
  ℕ, suc, ◌+◌, ◌/◌, ◌≤◌, String, true, false, List, [], ◌∷◌, Result, ok, err, ◌≢◌, arith,
}
use codex_warden.Supervisor.Listing.{has_managed_daemon, gui_running}
use codex_warden.Supervisor.Ops.{
  SupervisorConfig, MonitorEvent, SupervisorError, ProcessOps, Session, Outcome, done, raised,
  stalled, missing_standalone, missing_gui,
}
use codex_warden.Supervisor.Supervise.{
  complaint, wait_for_daemon_version, wait_for_gui_attachment, quit_gui, restart_gui, own_daemon,
  require, attach_gui, initialize, check_gui, check_version, check_listing, check, monitor,
  version_args, Wakeup, changed, sender_gone, interval,
}
use codex_warden.Supervisor.Rules.{
  Ensures-bind, Ensures-if, Ensures-pure, Ensures-raise, Ensures-try, Ensures-exists_path,
  Ensures-ps_environment, Ensures-graceful_quit_chatgpt, Ensures-now, Ensures-sleep,
}
use codex_warden.Supervisor.Clock.{
  IsTimed, From, Ends, ps-Ends, gui_attached-Ends, launch_gui-Ends, start_daemon-Ends, output-Ends,
  version_loop-Ends, attachment_loop-Ends, quit_loop-Ends,
}

module _ {W : Type 0} (ops : ProcessOps W) (config : SupervisorConfig) (timed : IsTimed ops) where
  abbrev After : ℕ → Session W → Type 0
  After = From ops config timed

  abbrev Stops : {A : Type 0} → ℕ → Outcome A × Session W → Type 0
  Stops n = Ends ops config timed n

  require-Ends :
      (n : ℕ) (path : String) (e : String → SupervisorError) (s : Session W)
      → After n s
      → Stops n (require ops config path e s)
  unfolding require
  require-Ends n path e s h =
      Ensures-bind {P = λ _. After n} _ _ _
        (Ensures-exists_path ops s path λ r w q. omega (arith, h, timed.exists_later _ _ _ _ q))
        λ found t k. Ensures-if found _ _ _ (λ y. Ensures-pure _ _ k) (λ no_. Ensures-raise _ _ tt)

  own_daemon-Ends : (n : ℕ) (s : Session W) → After n s → Stops n (own_daemon ops config s)
  unfolding own_daemon
  own_daemon-Ends n s h = Ensures-bind _ _ _ (ps-Ends ops config timed n s h) λ p t k.
      Ensures-if (has_managed_daemon p config.standalone_codex) _ _ _ (λ y. Ensures-pure _ _ k)
        (λ off. Ensures-bind _ _ _ (start_daemon-Ends ops config timed n t k) λ r u l.
          Ensures-bind {P = λ _. After n} _ _ _ (Ensures-try _ r _ (λ _ e. l) (λ _ e. tt))
            λ _ v m. Ensures-pure _ _ m)

  version-Ends :
      (n : ℕ) (s : Session W) → After n s → Stops n (wait_for_daemon_version ops config s)
  unfolding wait_for_daemon_version
  version-Ends n s h =
      Ensures-bind {P = λ now t. (n ≤ now) × After now t} _ _ _ (Ensures-now ops s (h, omega arith))
        λ now t (le, k).
          version_loop-Ends ops config timed (suc (config.startup_timeout / 100)) n now
            (now + config.startup_timeout) "" t le (omega arith) k

  attachment-Ends :
      (n : ℕ) (s : Session W) → After n s → Stops n (wait_for_gui_attachment ops config s)
  unfolding wait_for_gui_attachment
  attachment-Ends n s h =
      Ensures-bind {P = λ now t. (n ≤ now) × After now t} _ _ _ (Ensures-now ops s (h, omega arith))
        λ now t (le, k).
          attachment_loop-Ends ops config timed (suc (config.startup_timeout / 100)) n now
            (now + config.startup_timeout) t le (omega arith) k

  quit_gui-Ends :
      (n : ℕ) (p : String) (s : Session W) → After n s → Stops n (quit_gui ops config p s)
  unfolding quit_gui
  quit_gui-Ends n p s h =
      Ensures-bind {P = λ _. After n} _ _ _
        (Ensures-graceful_quit_chatgpt ops s λ r w e. omega (arith, h, timed.quit_later _ _ _ e))
        λ r t k.
          Ensures-bind {P = λ _. After n} _ _ _ (Ensures-try _ r _ (λ _ e. k) (λ _ e. tt)) λ _ u l.
            Ensures-bind {P = λ now v. (n ≤ now) × After now v} _ _ _
              (Ensures-now ops u (l, omega arith))
              λ now v (le, m).
                Ensures-bind _ _ _
                  (quit_loop-Ends ops config timed (suc (config.graceful_quit_timeout / 100)) n now
                    (now + config.graceful_quit_timeout) p v le (omega arith) m)
                  λ left x z.
                    Ensures-if (gui_running left config.gui_executable) _ _ _
                      (λ stays. Ensures-raise _ _ tt) (λ off. Ensures-pure _ _ z)

  restart_gui-Ends :
      (n : ℕ) (p : String) (s : Session W) → After n s → Stops n (restart_gui ops config p s)
  unfolding restart_gui
  restart_gui-Ends n p s h =
      Ensures-bind {P = λ _. After n} _ _ _
        (Ensures-if (gui_running p config.gui_executable) _ _ _ (λ on. quit_gui-Ends n p s h)
          (λ off. Ensures-pure _ _ h))
        λ _ t k. Ensures-bind _ _ _ (launch_gui-Ends ops config timed n t k) λ r u l.
          Ensures-bind {P = λ _. After n} _ _ _ (Ensures-try _ r _ (λ _ e. l) (λ _ e. tt))
            λ _ v m. attachment-Ends n v m

  attach_gui-Ends : (n : ℕ) (s : Session W) → After n s → Stops n (attach_gui ops config s)
  unfolding attach_gui
  attach_gui-Ends n s h = Ensures-bind _ _ _ (ps-Ends ops config timed n s h) λ p t k.
      Ensures-bind {P = λ _. After n} _ _ _
        (Ensures-if config.restart_gui_on_initialize _ _ _ (λ always. Ensures-pure _ _ k)
          (λ only. gui_attached-Ends ops config timed n p t k))
        λ there u l.
          Ensures-if there _ _ _ (λ y. Ensures-pure _ _ l) (λ away. restart_gui-Ends n p u l)

  initialize-Ends : (n : ℕ) (s : Session W) → After n s → Stops n (initialize ops config s)
  unfolding initialize
  initialize-Ends n s h =
      Ensures-bind _ _ _ (require-Ends n config.standalone_codex missing_standalone s h) λ _ t k.
        Ensures-bind _ _ _ (require-Ends n config.gui_executable missing_gui t k) λ _ u l.
          Ensures-bind _ _ _ (own_daemon-Ends n u l) λ own v m.
            Ensures-bind _ _ _ (version-Ends n v m)
              λ version w x. Ensures-bind _ _ _ (attach_gui-Ends n w x) λ _ y z. Ensures-pure _ _ z

  check_gui-Ends :
      (n : ℕ) (p : String) (s : Session W) → After n s → Stops n (check_gui ops config p s)
  unfolding check_gui
  check_gui-Ends n p s h =
      Ensures-bind _ _ _ (gui_attached-Ends ops config timed n p s h) λ there t k.
        Ensures-if there _ _ _ (λ y. Ensures-pure _ _ k)
          (λ away.
            Ensures-if (gui_running p config.gui_executable) _ _ _ (λ on. Ensures-pure _ _ k)
              (λ off.
                Ensures-bind _ _ _ (launch_gui-Ends ops config timed n t k)
                  λ r u l. Ensures-pure _ _ l))

  check_version-Ends :
      (n : ℕ) (p : String) (r : Result (Unit {0}) String) (s : Session W)
      → After n s
      → Stops n (check_version ops config p r s)
  unfolding check_version
  check_version-Ends n p (ok _) s h = check_gui-Ends n p s h
  check_version-Ends n p (err detail) s h = Ensures-pure _ _ h

  check_listing-Ends :
      (n : ℕ) (r : Result String String) (s : Session W)
      → After n s
      → Stops n (check_listing ops config r s)
  unfolding check_listing
  check_listing-Ends n (err e) s h = Ensures-pure _ _ h
  check_listing-Ends n (ok p) s h =
      Ensures-if (has_managed_daemon p config.standalone_codex) _ _ _
        (λ on.
          Ensures-bind _ _ _
            (output-Ends ops config timed n config.standalone_codex version_args s h)
            λ r t k. check_version-Ends n p (complaint r) t k)
        (λ off.
          Ensures-bind _ _ _ (start_daemon-Ends ops config timed n s h) λ r t k. Ensures-pure _ _ k)

  check-Ends : (n : ℕ) (s : Session W) → After n s → Stops n (check ops config s)
  unfolding check
  check-Ends n s h =
      Ensures-bind {P = λ _. After n} _ _ _
        (Ensures-ps_environment ops s λ r w e. omega (arith, h, timed.ps_later _ _ _ e))
        λ r t k. check_listing-Ends n r t k

  monitor-Ends :
      (n : ℕ) (wakeups : List Wakeup) (sent : List MonitorEvent) (s : Session W)
      → After n s
      → Stops n (monitor ops config wakeups sent s)
  unfolding monitor
  monitor-Ends n [] sent s h = Ensures-pure _ _ h
  monitor-Ends n (changed true ∷ rest) sent s h = Ensures-pure _ _ h
  monitor-Ends n (changed false ∷ rest) sent s h = monitor-Ends n rest sent s h
  monitor-Ends n (sender_gone ∷ rest) sent s h = Ensures-pure _ _ h
  monitor-Ends n (interval ∷ rest) sent s h =
      Ensures-bind {P = λ _. After n} _ _ _
        (Ensures-sleep ops s config.monitor_interval
          (omega (arith, h, timed.sleep_later config.monitor_interval s.world)))
        λ _ t k.
          Ensures-bind _ _ _ (check-Ends n t k) λ event u l. monitor-Ends n rest (event ∷ sent) u l

  not_stalled : {A : Type 0} (n : ℕ) (r : Outcome A × Session W) → Stops n r → r.0 ≢ stalled
  not_stalled n (done a, s) h e = cc
  not_stalled n (raised x, s) h e = cc
  not_stalled n (stalled, s) h e = h.met

  -- Over any processes whose calls do not turn the clock back and whose sleeps take their time,
  -- `initialize`, `check` and the monitor, the latter on any wake-ups, come to an end, with a value
  -- or an error: each wait has more rounds than it takes before its deadline.
  pub supervision_finishes :
      (s : Session W) (wakeups : List Wakeup) (sent : List MonitorEvent)
      → ((initialize ops config s).0 ≢ stalled)
        × ((check ops config s).0 ≢ stalled)
        × ((monitor ops config wakeups sent s).0 ≢ stalled)
  supervision_finishes s wakeups sent =
      let n = ops.now s.world in
      (
        not_stalled n _ (initialize-Ends n s (omega arith)),
        not_stalled n _ (check-Ends n s (omega arith)),
        not_stalled n _ (monitor-Ends n wakeups sent s (omega arith)),
      )
