-- ===== src/Supervisor/Conduct.antt =====
-- The supervisor's calls are careful, and a success is an attachment (src/supervisor/src/lib.rs).
use codex_warden.Prelude.{
  ℕ, zero, suc, ◌+◌, String, Bool, true, false, some, List, [], ◌∷◌, Result, ok, err, ◌≡◌, refl,
  inl, ltb, ◌==◌, arith,
}
use codex_warden.Supervisor.Listing.{has_managed_daemon, gui_running, gui_mode_enabled}
use codex_warden.Supervisor.Ops.{
  SupervisorConfig, SupervisorError, CommandOutput, ProcessOps, Step, Session, used, Call,
}
use codex_warden.Supervisor.Supervise.{
  judge, accepts, ps, gui_attached, start_daemon, version_loop, judged, attachment_loop, quit_loop,
  quit_gui, own_daemon, require, rounds, version_args, start_args,
}
use codex_warden.Supervisor.Rules.{
  Ensures, Ensures-bind, Ensures-if, Ensures-pure, Ensures-raise, Ensures-stall, Ensures-try,
  Ensures-exists_path, Ensures-ps_environment, Ensures-socket_users, Ensures-output, Ensures-spawn,
  Ensures-graceful_quit_chatgpt, Ensures-now, Ensures-sleep,
}
use codex_warden.Supervisor.Care.{last_listing, asked, Careful, Attached}

pub judge-not_empty :
    (r : Result CommandOutput String) (v : String) → judge r ≡ ok v → (v == "") ≡ false
judge-not_empty r v e = ground arith

used_lem :
    (config : SupervisorConfig) (r : Result String String) (before : List Call) (p : String)
    → gui_mode_enabled p config.gui_executable ≡ true
    → last_listing before ≡ some p
    → accepts r ≡ true
    → Attached config (used config.socket_path r ∷ before)
used_lem config (ok users) before p mode seen yes_ = (refl, yes_, (p, seen, mode))
used_lem config (err _) before p mode seen no_ = cc

module _ {W : Type 0} (ops : ProcessOps W) (config : SupervisorConfig) where
  abbrev pub Kept : Session W → Type 0
  Kept s = Careful config s.calls

  -- Careful, with what has been asked of the GUI.
  abbrev pub Sober : Bool → Session W → Type 0
  Sober b s = Careful config s.calls × (asked s.calls ≡ b)

  abbrev pub Seen : Bool → String → Session W → Type 0
  Seen b p s = Sober b s × (last_listing s.calls ≡ some p)

  pub ps-Seen :
      (b : Bool) (s : Session W) → Sober b s → Ensures (Seen b) Kept Kept (ps ops config s)
  unfolding ps
  ps-Seen b s h =
      Ensures-bind
        {P = λ r t. Sober b t × ((p : String) → r ≡ ok p → last_listing t.calls ≡ some p)} _ _ _
        (Ensures-ps_environment ops s λ r w e. (((tt, h.0), h.1), λ p q. rw q refl))
        (λ r t k. Ensures-try _ _ _ (λ p e. (k.0, k.1 p e)) (λ text e. k.0.0))

  pub gui_attached-Seen :
      (b : Bool) (p : String) (s : Session W)
      → Seen b p s
      → Ensures
          (λ there t. Seen b p t × (there ≡ true → Attached config t.calls))
          Kept
          Kept
          (gui_attached ops config p s)
  unfolding gui_attached
  gui_attached-Seen b p s h =
      Ensures-if (gui_mode_enabled p config.gui_executable) _ _ _
        (λ mode.
          Ensures-bind {P = λ r t. Seen b p t × (accepts r ≡ true → Attached config t.calls)} _ _ _
            (Ensures-socket_users ops s config.socket_path
              λ r w e. ((((tt, h.0.0), h.0.1), h.1), used_lem config r s.calls p mode h.1))
            (λ r t k. Ensures-pure _ _ k))
        (λ off. Ensures-pure _ _ (h, λ e. cc))

  abbrev pub Versioned : Bool → String → Session W → Type 0
  Versioned b version t = Sober b t × ((version == "") ≡ false)

  -- The latest listing lacks the GUI.
  abbrev pub Gone : Session W → Type 0
  Gone s =
      Kept s
      × ((p : String) × (last_listing s.calls ≡ some p)
          × (gui_running p config.gui_executable ≡ false))

  abbrev pub Arrived : Session W → Type 0
  Arrived s = Kept s × Attached config s.calls

  pub require-Sober :
      (b : Bool) (path : String) (e : String → SupervisorError) (s : Session W)
      → Sober b s
      → Ensures (λ _. Sober b) Kept Kept (require ops config path e s)
  unfolding require
  require-Sober b path e s h =
      Ensures-bind {P = λ _. Sober b} _ _ _
        (Ensures-exists_path ops s path λ r w q. ((tt, h.0), h.1))
        (λ found t k. Ensures-if found _ _ _ (λ y. Ensures-pure _ _ k) (λ n. Ensures-raise _ _ k.0))

  pub own_daemon-Sober :
      (b : Bool) (s : Session W)
      → Sober b s
      → Ensures (λ _. Sober b) Kept Kept (own_daemon ops config s)
  unfolding own_daemon start_daemon
  own_daemon-Sober b s h = Ensures-bind _ _ _ (ps-Seen b s h) λ p t k.
      Ensures-if (has_managed_daemon p config.standalone_codex) _ _ _ (λ y. Ensures-pure _ _ k.0)
        (λ off.
          Ensures-bind {P = λ _. Sober b} _ _ _
            (Ensures-spawn ops t config.standalone_codex start_args []
              λ r w e. (((p, k.1, inl (refl, refl, refl, off)), k.0.0), k.0.1))
            λ r u l.
              Ensures-bind {P = λ _. Sober b} _ _ _ (Ensures-try _ r _ (λ _ e. l) (λ _ e. l.0))
                λ _ v m. Ensures-pure _ _ m)

  judged-Versioned :
      (b : Bool) (again : String → Step W String) (r : Result String String) (s : Session W)
      → ((v : String) → r ≡ ok v → (v == "") ≡ false)
      → Sober b s
      → ((d : String) (t : Session W) → Sober b t → Ensures (Versioned b) Kept Kept (again d t))
      → Ensures (Versioned b) Kept Kept (judged ops config again r s)
  unfolding judged
  judged-Versioned b again (ok v) s full h next = Ensures-pure _ _ (h, full v refl)
  judged-Versioned b again (err d) s full h next =
      Ensures-bind {P = λ _. Sober b} _ _ _ (Ensures-sleep ops s 100 h) λ _ t k. next d t k

  pub version_loop-Versioned :
      (n deadline : ℕ) (detail : String) (b : Bool) (s : Session W)
      → Sober b s
      → Ensures (Versioned b) Kept Kept (version_loop ops config n deadline detail s)
  unfolding version_loop
  version_loop-Versioned zero deadline detail b s h = Ensures-stall _ h.0
  version_loop-Versioned (suc n) deadline detail b s h =
      Ensures-bind {P = λ _. Sober b} _ _ _ (Ensures-now ops s h) λ now t k.
        Ensures-if (ltb now deadline) _ _ _
          (λ early.
            Ensures-bind {P = λ _. Sober b} _ _ _
              (Ensures-output ops t config.standalone_codex version_args
                λ r w e. (((refl, refl), k.0), k.1))
              λ r u l.
                judged-Versioned b _ (judge r) u (judge-not_empty r) l
                  (λ d v m. version_loop-Versioned n deadline d b v m))
          (λ late. Ensures-raise _ _ k.0)

  pub attachment_loop-Arrived :
      (n deadline : ℕ) (s : Session W)
      → Kept s
      → Ensures (λ _. Arrived) Kept Kept (attachment_loop ops config n deadline s)
  unfolding attachment_loop
  attachment_loop-Arrived zero deadline s h = Ensures-stall _ h
  attachment_loop-Arrived (suc n) deadline s h =
      Ensures-bind {P = λ _. Kept} _ _ _ (Ensures-now ops s h) λ now t k.
        Ensures-if (ltb now deadline) _ _ _
          (λ early. Ensures-bind _ _ _ (ps-Seen (asked t.calls) t (k, refl)) λ p u l.
            Ensures-bind _ _ _ (gui_attached-Seen (asked t.calls) p u l) λ there v m.
              Ensures-if there _ _ _ (λ y. Ensures-pure _ _ (m.0.0.0, m.1 y))
                (λ away.
                  Ensures-bind {P = λ _. Kept} _ _ _ (Ensures-sleep ops v 100 m.0.0.0)
                    λ _ x z. attachment_loop-Arrived n deadline x z))
          (λ late. Ensures-raise _ _ k)

  quit_loop-Seen :
      (n deadline : ℕ) (p : String) (s : Session W)
      → Seen true p s
      → Ensures (Seen true) Kept Kept (quit_loop ops config n deadline p s)
  unfolding quit_loop
  quit_loop-Seen zero deadline p s h = Ensures-stall _ h.0.0
  quit_loop-Seen (suc n) deadline p s h =
      Ensures-bind {P = λ _. Seen true p} _ _ _ (Ensures-now ops s h) λ now t k.
        Ensures-if (ltb now deadline) _ _ _
          (λ early. Ensures-bind {P = λ _. Sober true} _ _ _ (Ensures-sleep ops t 100 k.0) λ _ u l.
            Ensures-bind _ _ _ (ps-Seen true u l) λ q v m.
              Ensures-if (gui_running q config.gui_executable) _ _ _
                (λ on. quit_loop-Seen n deadline q v m) (λ off. Ensures-pure _ _ m))
          (λ late. Ensures-pure _ _ k)

  pub quit_gui-Gone :
      (p : String) (s : Session W)
      → gui_running p config.gui_executable ≡ true
      → Seen false p s
      → Ensures (λ _. Gone) Kept Kept (quit_gui ops config p s)
  unfolding quit_gui
  quit_gui-Gone p s on h =
      Ensures-bind {P = λ _. Seen true p} _ _ _
        (Ensures-graceful_quit_chatgpt ops s λ r w e. ((((p, h.1, on, h.0.1), h.0.0), refl), h.1))
        λ r t k.
          Ensures-bind {P = λ _. Seen true p} _ _ _ (Ensures-try _ r _ (λ _ e. k) (λ _ e. k.0.0))
            λ _ u l. Ensures-bind {P = λ _. Seen true p} _ _ _ (Ensures-now ops u l) λ now v m.
              Ensures-bind _ _ _
                (quit_loop-Seen (rounds config.graceful_quit_timeout)
                  (now + config.graceful_quit_timeout) p v m)
                λ left x z.
                  Ensures-if (gui_running left config.gui_executable) _ _ _
                    (λ stays. Ensures-raise _ _ z.0.0)
                    (λ off. Ensures-pure _ _ (z.0.0, (left, z.1, off)))
