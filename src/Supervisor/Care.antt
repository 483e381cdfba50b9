-- ===== src/Supervisor/Care.antt =====
-- Which calls a supervisor may make after those before (src/supervisor/src/lib.rs).
use codex_warden.Prelude.{
  String, Bool, true, false, Option, some, none, List, [], ◌∷◌, ok, err, ◌≡◌, ◌⊎◌,
}
use codex_warden.Supervisor.Listing.{
  application_bundle, has_managed_daemon, gui_running, gui_mode_enabled,
  has_accepted_socket_connection,
}
use codex_warden.Supervisor.Ops.{SupervisorConfig, Call, existed, listed, used, ran, spawned, quit}
use codex_warden.Supervisor.Supervise.{version_args, start_args, gui_env}

-- The latest listing of the processes.
abbrev pub last_listing : List Call → Option String
last_listing [] = none
last_listing (listed (ok processes) ∷ calls) = some processes
last_listing (listed (err _) ∷ calls) = last_listing calls
last_listing (existed _ _ ∷ calls) = last_listing calls
last_listing (used _ _ ∷ calls) = last_listing calls
last_listing (ran _ _ _ ∷ calls) = last_listing calls
last_listing (spawned _ _ _ _ ∷ calls) = last_listing calls
last_listing (quit _ ∷ calls) = last_listing calls

-- The GUI has been asked to quit.
abbrev pub asked : List Call → Bool
asked [] = false
asked (quit _ ∷ calls) = true
asked (existed _ _ ∷ calls) = asked calls
asked (listed _ ∷ calls) = asked calls
asked (used _ _ ∷ calls) = asked calls
asked (ran _ _ _ ∷ calls) = asked calls
asked (spawned _ _ _ _ ∷ calls) = asked calls

module _ (config : SupervisorConfig) where
  -- The daemon is started where the latest listing lacks it, and the GUI where it lacks the GUI; the
  -- GUI is asked to quit once, where it is listed; the daemon's program is only asked its version.
  abbrev pub Justified : Call → List Call → Type 0
  Justified (spawned program args env _) before =
      (processes : String) × (last_listing before ≡ some processes)
      × (((program ≡ config.standalone_codex)
            × (args ≡ start_args)
            × (env ≡ [])
            × (has_managed_daemon processes config.standalone_codex ≡ false))
          ⊎ ((program ≡ "/usr/bin/open")
              × (args ≡ "-a" ∷ application_bundle config.gui_executable ∷ [])
              × (env ≡ gui_env)
              × (gui_running processes config.gui_executable ≡ false)))
  Justified (quit _) before =
      (processes : String) × (last_listing before ≡ some processes)
      × (gui_running processes config.gui_executable ≡ true)
      × (asked before ≡ false)
  Justified (ran program args _) before =
      (program ≡ config.standalone_codex) × (args ≡ version_args)
  Justified (existed _ _) before = Unit {0}
  Justified (listed _) before = Unit {0}
  Justified (used _ _) before = Unit {0}

  abbrev pub Careful : List Call → Type 0
  Careful [] = Unit {0}
  Careful (call ∷ before) = Justified call before × Careful before

  -- The last call has shown an accepted connection of the socket, and the latest listing before it
  -- the GUI in the mode that uses the daemon.
  abbrev pub Attached : List Call → Type 0
  Attached (used socket (ok users) ∷ before) =
      (socket ≡ config.socket_path)
      × (has_accepted_socket_connection users ≡ true)
      × ((processes : String) × (last_listing before ≡ some processes)
          × (gui_mode_enabled processes config.gui_executable ≡ true))
  Attached _ = ⊥
