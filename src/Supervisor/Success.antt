-- ===== src/Supervisor/Success.antt =====
-- `initialize` is careful, and attached where it succeeds
-- (src/supervisor/src/lib.rs).
use codex_warden.Prelude.{◌+◌, String, true, false, [], ◌∷◌, ◌≡◌, refl, inr, ◌==◌}
use codex_warden.Supervisor.Listing.{gui_running, application_bundle}
use codex_warden.Supervisor.Ops.{
  SupervisorConfig, SupervisionState, ProcessOps, Session, missing_standalone, missing_gui,
}
use codex_warden.Supervisor.Supervise.{
  launch_gui, wait_for_daemon_version, wait_for_gui_attachment, restart_gui, attach_gui, initialize,
  rounds, gui_env,
}
use codex_warden.Supervisor.Rules.{
  Ensures, Ensures-bind, Ensures-if, Ensures-pure, Ensures-try, Ensures-spawn, Ensures-now,
}
use codex_warden.Supervisor.Care.{Attached}
use codex_warden.Supervisor.Conduct.{
  Kept, Sober, Seen, Gone, Arrived, ps-Seen, gui_attached-Seen, require-Sober, own_daemon-Sober,
  version_loop-Versioned, attachment_loop-Arrived, quit_gui-Gone,
}

module _ {W : Type 0} (ops : ProcessOps W) (config : SupervisorConfig) where
  pub launch_gui-Kept :
      (s : Session W)
      → Gone ops config s
      → Ensures (λ _. Kept ops config) (Kept ops config) (Kept ops config) (launch_gui ops config s)
  unfolding launch_gui
  launch_gui-Kept s (k, (p, seen, off)) =
      Ensures-spawn ops s "/usr/bin/open" ("-a" ∷ application_bundle config.gui_executable ∷ [])
        gui_env λ r w e. ((p, seen, inr (refl, refl, refl, off)), k)

  restart_gui-Arrived :
      (p : String) (s : Session W)
      → Seen ops config false p s
      → Ensures
          (λ _. Arrived ops config)
          (Kept ops config)
          (Kept ops config)
          (restart_gui ops config p s)
  unfolding restart_gui wait_for_gui_attachment
  restart_gui-Arrived p s h =
      Ensures-bind {P = λ _. Gone ops config} _ _ _
        (Ensures-if (gui_running p config.gui_executable) _ _ _
          (λ on. quit_gui-Gone ops config p s on h)
          (λ off. Ensures-pure _ _ (h.0.0, (p, h.1, off))))
        λ _ t gone. Ensures-bind _ _ _ (launch_gui-Kept t gone) λ r u k.
          Ensures-bind {P = λ _. Kept ops config} _ _ _ (Ensures-try _ r _ (λ _ e. k) (λ _ e. k))
            λ _ v l. Ensures-bind {P = λ _. Kept ops config} _ _ _ (Ensures-now ops v l) λ now x m.
              attachment_loop-Arrived ops config (rounds config.startup_timeout)
                (now + config.startup_timeout) x m

  attach_gui-Arrived :
      (s : Session W)
      → Sober ops config false s
      → Ensures
          (λ _. Arrived ops config)
          (Kept ops config)
          (Kept ops config)
          (attach_gui ops config s)
  unfolding attach_gui
  attach_gui-Arrived s h = Ensures-bind _ _ _ (ps-Seen ops config false s h) λ p t k.
      Ensures-bind
        {P = λ there u. Seen ops config false p u × (there ≡ true → Attached config u.calls)} _ _ _
        (Ensures-if config.restart_gui_on_initialize _ _ _
          (λ always. Ensures-pure _ _ (k, λ no_. cc))
          (λ only. gui_attached-Seen ops config false p t k))
        λ there u l.
          Ensures-if there _ _ _ (λ y. Ensures-pure _ _ (l.0.0.0, l.1 y))
            (λ away. restart_gui-Arrived p u l.0)

  abbrev pub Initialized : SupervisionState → Session W → Type 0
  Initialized state s =
      Arrived ops config s × (state.gui_attached ≡ true) × ((state.daemon_version == "") ≡ false)

  pub initialize-Initialized :
      (s : Session W)
      → Sober ops config false s
      → Ensures Initialized (Kept ops config) (Kept ops config) (initialize ops config s)
  unfolding initialize wait_for_daemon_version
  initialize-Initialized s h =
      Ensures-bind _ _ _
        (require-Sober ops config false config.standalone_codex missing_standalone s h)
        λ _ t k.
          Ensures-bind _ _ _ (require-Sober ops config false config.gui_executable missing_gui t k)
            λ _ u l. Ensures-bind _ _ _ (own_daemon-Sober ops config false u l) λ own v m.
              Ensures-bind _ _ _
                (Ensures-bind {P = λ _. Sober ops config false} _ _ _ (Ensures-now ops v m)
                  λ now w n.
                    version_loop-Versioned ops config (rounds config.startup_timeout)
                      (now + config.startup_timeout) "" false w n)
                λ version w n.
                  Ensures-bind _ _ _ (attach_gui-Arrived w n.0)
                    λ _ x z. Ensures-pure _ _ (z, refl, n.1)
