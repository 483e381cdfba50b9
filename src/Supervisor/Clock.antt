-- ===== src/Supervisor/Clock.antt =====
-- The supervisor's loops end before their rounds do (src/supervisor/src/lib.rs).
use codex_warden.Prelude.{
  ℕ, zero, suc, ◌+◌, ◌*◌, ◌≤◌, String, Bool, List, Result, ok, err, ◌≡◌, ltb, arith,
}
use codex_warden.Supervisor.Listing.{gui_running, gui_mode_enabled}
use codex_warden.Supervisor.Ops
use codex_warden.Supervisor.Ops.{
  SupervisorConfig, MonitorEvent, SupervisorError, CommandOutput, ProcessOps, Session, Outcome,
  stalled, pure, ◌>>=◌, ◌>>◌, Step, missing_standalone, missing_gui,
}
use codex_warden.Supervisor.Supervise.{
  judge, ps, gui_attached, launch_gui, start_daemon, judged, version_loop, attachment_loop,
  quit_loop, version_args,
}
use codex_warden.Supervisor.Rules.{
  Ensures, Ensures-bind, Ensures-if, Ensures-pure, Ensures-raise, Ensures-try,
  Ensures-ps_environment, Ensures-socket_users, Ensures-output, Ensures-spawn, Ensures-now,
  Ensures-sleep,
}

-- No call turns the clock back, and a sleep takes at least its duration.
pub record IsTimed {W : Type 0} (ops : ProcessOps W) : Type 0 where
  pub exists_later :
      (path : String) (w : W) (b : Bool) (v : W)
      → ops.exists_path path w ≡ (b, v)
      → ops.now w ≤ ops.now v
  pub ps_later :
      (w : W) (r : Result String String) (v : W)
      → ops.ps_environment w ≡ (r, v)
      → ops.now w ≤ ops.now v
  pub users_later :
      (socket : String) (w : W) (r : Result String String) (v : W)
      → ops.socket_users socket w ≡ (r, v)
      → ops.now w ≤ ops.now v
  pub output_later :
      (program : String) (args : List String) (w : W) (r : Result CommandOutput String) (v : W)
      → ops.output program args w ≡ (r, v)
      → ops.now w ≤ ops.now v
  pub spawn_later :
      (program : String) (args : List String) (env : List (String × String)) (w : W)
      (r : Result (Unit {0}) String) (v : W)
      → ops.spawn program args env w ≡ (r, v)
      → ops.now w ≤ ops.now v
  pub quit_later :
      (w : W) (r : Result (Unit {0}) String) (v : W)
      → ops.graceful_quit_chatgpt w ≡ (r, v)
      → ops.now w ≤ ops.now v
  pub sleep_later : (d : ℕ) (w : W) → ops.now w + d ≤ ops.now (ops.sleep d w)

module _ {W : Type 0} (ops : ProcessOps W) (config : SupervisorConfig) (timed : IsTimed ops) where
  abbrev pub From : ℕ → Session W → Type 0
  From n s = n ≤ ops.now s.world

  -- Ends, no earlier than `n`.
  abbrev pub Ends : {A : Type 0} → ℕ → Outcome A × Session W → Type 0
  Ends n = Ensures (λ _. From n) (λ _. Unit) (λ _. ⊥)

  pub ps-Ends : (n : ℕ) (s : Session W) → From n s → Ends n (ps ops config s)
  unfolding ps
  ps-Ends n s h =
      Ensures-bind {P = λ _. From n} _ _ _
        (Ensures-ps_environment ops s λ r w e. omega (arith, h, timed.ps_later _ _ _ e))
        λ r t k. Ensures-try _ r _ (λ _ e. k) (λ _ e. tt)

  pub gui_attached-Ends :
      (n : ℕ) (p : String) (s : Session W) → From n s → Ends n (gui_attached ops config p s)
  unfolding gui_attached
  gui_attached-Ends n p s h =
      Ensures-if (gui_mode_enabled p config.gui_executable) _ _ _
        (λ mode.
          Ensures-bind {P = λ _. From n} _ _ _
            (Ensures-socket_users ops s config.socket_path
              λ r w e. omega (arith, h, timed.users_later _ _ _ _ e))
            λ r t k. Ensures-pure _ _ k)
        (λ off. Ensures-pure _ _ h)

  pub launch_gui-Ends : (n : ℕ) (s : Session W) → From n s → Ends n (launch_gui ops config s)
  unfolding launch_gui
  launch_gui-Ends n s h =
      Ensures-spawn ops s _ _ _ λ r w e. omega (arith, h, timed.spawn_later _ _ _ _ _ _ e)

  pub start_daemon-Ends : (n : ℕ) (s : Session W) → From n s → Ends n (start_daemon ops config s)
  unfolding start_daemon
  start_daemon-Ends n s h =
      Ensures-spawn ops s _ _ _ λ r w e. omega (arith, h, timed.spawn_later _ _ _ _ _ _ e)

  pub output-Ends :
      (n : ℕ) (program : String) (args : List String) (s : Session W)
      → From n s
      → Ends n (Ops.output ops program args s)
  output-Ends n program args s h =
      Ensures-output ops s program args λ r w e. omega (arith, h, timed.output_later _ _ _ _ _ e)

  pub sleep-Ends : (n d : ℕ) (s : Session W) → From n s → Ends (n + d) (Ops.sleep ops d s)
  sleep-Ends n d s h = Ensures-sleep ops s d (omega (arith, h, timed.sleep_later d s.world))

  judged-Ends :
      (m n : ℕ) (again : String → Step W String) (r : Result String String) (s : Session W)
      → m ≤ n
      → From n s
      → ((d : String) (t : Session W) → From (n + 100) t → Ends m (again d t))
      → Ends m (judged ops config again r s)
  unfolding judged
  judged-Ends m n again (ok v) s le h next = Ensures-pure _ _ (omega (arith, le, h))
  judged-Ends m n again (err d) s le h next =
      Ensures-bind _ _ _ (sleep-Ends n 100 s h) λ _ t k. next d t k

  pub version_loop-Ends :
      (k m n deadline : ℕ) (detail : String) (s : Session W)
      → m ≤ n
      → deadline ≤ n + 100 * k
      → From n s
      → Ends m (version_loop ops config (suc k) deadline detail s)
  unfolding version_loop
  version_loop-Ends zero m n deadline detail s le room h =
      Ensures-bind {P = λ now _. n ≤ now} _ _ _ (Ensures-now ops s h) λ now t q.
        Ensures-if (ltb now deadline) _ _ _ (λ early. ground (arith, early, q, room))
          (λ late. Ensures-raise _ _ tt)
  version_loop-Ends (suc k) m n deadline detail s le room h =
      Ensures-bind {P = λ _. From n} _ _ _ (Ensures-now ops s h) λ now t q.
        Ensures-if (ltb now deadline) _ _ _
          (λ early.
            Ensures-bind _ _ _ (output-Ends n config.standalone_codex version_args t q) λ r u l.
              judged-Ends m n _ (judge r) u le l λ d v z.
                version_loop-Ends k m (n + 100) deadline d v (omega (arith, le))
                  (omega (arith, room)) z)
          (λ late. Ensures-raise _ _ tt)

  pub attachment_loop-Ends :
      (k m n deadline : ℕ) (s : Session W)
      → m ≤ n
      → deadline ≤ n + 100 * k
      → From n s
      → Ends m (attachment_loop ops config (suc k) deadline s)
  unfolding attachment_loop
  attachment_loop-Ends zero m n deadline s le room h =
      Ensures-bind {P = λ now _. n ≤ now} _ _ _ (Ensures-now ops s h) λ now t q.
        Ensures-if (ltb now deadline) _ _ _ (λ early. ground (arith, early, q, room))
          (λ late. Ensures-raise _ _ tt)
  attachment_loop-Ends (suc k) m n deadline s le room h =
      Ensures-bind {P = λ _. From n} _ _ _ (Ensures-now ops s h) λ now t q.
        Ensures-if (ltb now deadline) _ _ _
          (λ early. Ensures-bind _ _ _ (ps-Ends n t q) λ p u l.
            Ensures-bind _ _ _ (gui_attached-Ends n p u l) λ there v x.
              Ensures-if there _ _ _ (λ y. Ensures-pure _ _ (omega (arith, le, x)))
                (λ away. Ensures-bind _ _ _ (sleep-Ends n 100 v x) λ _ y z.
                  attachment_loop-Ends k m (n + 100) deadline y (omega (arith, le))
                    (omega (arith, room)) z))
          (λ late. Ensures-raise _ _ tt)

  pub quit_loop-Ends :
      (k m n deadline : ℕ) (p : String) (s : Session W)
      → m ≤ n
      → deadline ≤ n + 100 * k
      → From n s
      → Ends m (quit_loop ops config (suc k) deadline p s)
  unfolding quit_loop
  quit_loop-Ends zero m n deadline p s le room h =
      Ensures-bind {P = λ now t. (n ≤ now) × From n t} _ _ _ (Ensures-now ops s (h, h))
        λ now t (q, l).
          Ensures-if (ltb now deadline) _ _ _ (λ early. ground (arith, early, q, room))
            (λ late. Ensures-pure _ _ (omega (arith, le, l)))
  quit_loop-Ends (suc k) m n deadline p s le room h =
      Ensures-bind {P = λ _. From n} _ _ _ (Ensures-now ops s h) λ now t q.
        Ensures-if (ltb now deadline) _ _ _
          (λ early. Ensures-bind _ _ _ (sleep-Ends n 100 t q) λ _ u l.
            Ensures-bind _ _ _ (ps-Ends (n + 100) u l) λ listing v x.
              Ensures-if (gui_running listing config.gui_executable) _ _ _
                (λ on.
                  quit_loop-Ends k m (n + 100) deadline listing v (omega (arith, le))
                    (omega (arith, room)) x)
                (λ off. Ensures-pure _ _ (omega (arith, le, x))))
          (λ late. Ensures-pure _ _ (omega (arith, le, q)))
