-- ===== src/Transport/System/Frames.antt =====
-- The transport writes calls only, and no id twice (`TransportHandle` and `connection_loop` of
-- src/transport/src/lib.rs).
use codex_warden.Prelude.{
  ℕ, suc, ◌+◌, ◌≤◌, ◌<◌, u64_max, String, Bool, true, false, not, ◌&&◌, Option, some, none, List,
  [], ◌∷◌, ◌≡◌, refl, length, arith, All, Option-cases, inl, inr, if◌then◌else◌,
}
use codex_warden.Protocol.Json.{Json, JsonLaws, RpcId, number}
use codex_warden.Transport.Drive.{
  Command, DriveExit, Input, command, message, tick, Connection, drive,
}
use codex_warden.Transport.Handshake.{
  TransportConfig, Handshake, Greeted, initialized, refused, waiting, initialize,
}
use codex_warden.Transport.System.{
  System, Move, asks, notifies, marks, shuts, takes, rejects, hears, ticks, connects, oldest, moved,
  leave, react, take, connect, step, steps, start,
}
use codex_warden.Transport.System.Tally.{carries_id, queued_id, sum_by-oldest}
use codex_warden.Transport.System.Fresh.{ids_in}
use codex_warden.Transport.System.Kept.{left}
use codex_warden.Transport.System.Wire.{is_call, written, Writes, drive-Writes}
use codex_warden.Transport.System.Greet.{initialize-Writes}
use codex_warden.Transport.System.Wired.{
  Wired, Sends, Sends-Wired, moved-Sends, leave-Sends, stays-Sends, notify-Sends, mark-Sends,
  shutdown-Sends, reject-Sends, asks-Wired,
}

module _ {V : Type 0} (j : Json V) (laws : JsonLaws j) (config : TransportConfig)
    (show_idle : ℕ → String) where
  react-Sends :
      (now : ℕ) (i : Input V) (s : System V) (rest : List (Command V))
      → ((k : RpcId)
          → queued_id k s.handle.commands
            ≡ ids_in j config.read_idle_timeout show_idle i k + queued_id k rest)
      → Sends j s (react j config show_idle now i (left rest s))
  unfolding react
  react-Sends now i s rest q =
      ends (drive j config.read_idle_timeout show_idle ((now, i) ∷ []) s.connection)
        (drive-Writes j laws config.read_idle_timeout show_idle now i s.connection)
    where
      ends :
          (r : Connection V × Option DriveExit)
          → Writes j (ids_in j config.read_idle_timeout show_idle i) s.connection r.0
          → Sends j s (elim r.1 [
            | none ↦ moved r.0 true s.handle.is_open (left rest s)
            | some e ↦ leave e r.0 (left rest s)
          ])
      ends (c, none) w = moved-Sends j s rest c true _ q w
      ends (c, some e) w = leave-Sends j s rest c e q w

  take-Sends :
      (now : ℕ) (error : Option String) (s : System V)
      → Sends j s (take j config show_idle now error s)
  unfolding take
  take-Sends now error s = elim (Option-cases (oldest s.handle.commands)) [
    | inl e ↦ rw (e, take) (stays-Sends j s)
    | inr ((rest, c), e) ↦
        rw (e, take)
          (react-Sends now (command (some c) error) s rest
            (λ k. sum_by-oldest (carries_id k) s.handle.commands rest c e))
  ]

  connect-Sends :
      (h : Handshake V) (begun : ℕ) (s : System V)
      → Sends j s (connect j config show_idle h begun s)
  unfolding connect
  connect-Sends h begun s =
      go (initialize j config h s.connection)
        (initialize-Writes j laws config show_idle h s.connection)
    where
      go :
          (r : Connection V × Greeted)
          → Writes j (λ _. 0) s.connection r.0
          → Sends j s (elim r.1 [
            | initialized ↦
                moved
                  (record (r.0) { reconcile_ready = false; pending = []; last_read = begun })
                  true
                  s.handle.is_open
                  s
            | _ ↦ moved (r.0) false s.handle.is_open s
          ])
      go (c, refused error) w =
          moved-Sends j {ids = λ _. 0} s s.handle.commands c false _ (λ k. omega arith) w
      go (c, waiting) w =
          moved-Sends j {ids = λ _. 0} s s.handle.commands c false _ (λ k. omega arith) w
      go (c, initialized) w =
          moved-Sends j {ids = λ _. 0} s s.handle.commands _ true _ (λ k. omega arith)
            (record { fewer = w.fewer; calls = w.calls })

  Lasts : System V → System V → Type 0
  Lasts s s' = Wired j s' × (s'.handle.next_id ≤ s.handle.next_id + 1)

  lasts : (s s' : System V) → Wired j s → Sends j s s' → Lasts s s'
  unfolding Lasts
  lasts s s' h m = (Sends-Wired j s s' m h, omega (arith, m.ids))

  guarded :
      (here : Bool) (s s' : System V) → Wired j s → Sends j s s' → Lasts s (if here then s' else s)
  guarded true s s' h m = lasts s s' h m
  guarded false s s' h m = lasts s s h (stays-Sends j s)

  step-Lasts :
      (m : Move V) (s : System V)
      → s.handle.next_id < u64_max
      → Wired j s
      → Lasts s (step j config show_idle m s)
  unfolding step Lasts
  step-Lasts (asks method params action awaited) s room h =
      asks-Wired j method params action awaited s room h
  step-Lasts (notifies method params) s room h = lasts s _ h (notify-Sends j method params s)
  step-Lasts (marks acknowledged) s room h = lasts s _ h (mark-Sends j acknowledged s)
  step-Lasts shuts s room h = lasts s _ h (shutdown-Sends j s)
  step-Lasts (takes now error) s room h = guarded s.live s _ h (take-Sends now error s)
  step-Lasts (hears now m unix ingress) s room h =
      guarded s.live s _ h
        (react-Sends now (message m unix ingress) s s.handle.commands (λ k. omega arith))
  step-Lasts (ticks now written) s room h =
      guarded s.live s _ h (react-Sends now (tick written) s s.handle.commands (λ k. omega arith))
  step-Lasts (rejects detail) s room h =
      guarded (not s.live && s.handle.is_open) s _ h (reject-Sends j detail s)
  step-Lasts (connects k begun) s room h =
      guarded (not s.live && s.handle.is_open) s _ h (connect-Sends k begun s)

  steps-Wired :
      (ms : List (Move V)) (s : System V)
      → s.handle.next_id + length ms ≤ u64_max
      → Wired j s
      → Wired j (steps j config show_idle ms s)
  unfolding steps Lasts
  steps-Wired [] s room h = h
  steps-Wired (m ∷ ms) s room h =
      let (h', next) = step-Lasts m s (omega arith) h in
      steps-Wired ms (step j config show_idle m s) (omega (arith, next)) h'

  start-Wired : Wired j (start j config show_idle)
  start-Wired = record { one = λ n. omega arith; young = λ n le. refl; calls = tt }

  -- By the laws of the JSON values, everything that the transport ever writes, over all of its
  -- connections and whatever its callers and the far side do in fewer moves than there are ids, is
  -- read back as a request or a notification, and no two requests bear the same number as their id,
  -- except the handshakes' 0.
  pub frames-Calls :
      (moves : List (Move V)) (n : ℕ)
      → length moves < u64_max
      → let frames =
          (steps j config show_idle moves (start j config show_idle)).connection.frames in
        All (λ v. is_call j v ≡ true) frames × (written j (number (suc n)) frames ≤ 1)
  frames-Calls moves n room =
      let h = steps-Wired moves (start j config show_idle) (omega arith) start-Wired in
      (h.calls, omega (arith, h.one n))
