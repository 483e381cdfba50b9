-- ===== src/Transport/System/Stale.antt =====
-- A command that outlives its connection (`drive` and `connection_loop` of
-- src/transport/src/lib.rs).
use codex_warden.Prelude.{
  ℕ, String, Bool, true, false, Option, none, some, List, ◌∷◌, ◌≡◌, refl, ap, ◌∙◌,
}
use codex_warden.Protocol.Json.{Json, RpcId, request as request_json}
use codex_warden.Transport.Drive.{Command, reconciled, ended, obey, hear, round, drive}
use codex_warden.Transport.Handshake.{TransportConfig, Handshake, initialized, initialize}
use codex_warden.Transport.System.{
  System, hears, takes, connects, oldest, leave, react, take, connect, step,
}

module _ {V : Type 0} (j : Json V) (config : TransportConfig) (show_idle : ℕ → String) where
  -- A connection that ends leaves the queue as it is.
  abbrev pub Ended : System V → System V → Type 0
  Ended s t =
      (t.live ≡ false)
      × (t.handle.is_open ≡ s.handle.is_open)
      × (t.handle.commands ≡ s.handle.commands)
      × (t.handle.reconcile_ready ≡ false)

  pub ends_lem :
      (now unix : ℕ) (ingress : Bool) (s : System V)
      → s.live ≡ true
      → Ended s (step j config show_idle (hears now ended unix ingress) s)
  unfolding step react leave round hear drive
  ends_lem now unix ingress s live = simp live (refl, refl, refl, refl)

  abbrev Connected : List V → System V → System V → Type 0
  Connected frames s t =
      (t.live ≡ true)
      × (t.handle.is_open ≡ s.handle.is_open)
      × (t.handle.commands ≡ s.handle.commands)
      × (t.handle.reconcile_ready ≡ false)
      × (t.connection.frames ≡ frames)
      × (t.connection.reconcile_ready ≡ false)

  connects_lem :
      (h : Handshake V) (begun : ℕ) (s : System V)
      → s.live ≡ false
      → s.handle.is_open ≡ true
      → (initialize j config h s.connection).1 ≡ initialized
      → Connected
          (initialize j config h s.connection).0.frames
          s
          (step j config show_idle (connects h begun) s)
  unfolding step connect
  connects_lem h begun s live is_open done =
      simp (live, is_open) (rw (connect, done) (refl, is_open, refl, refl, refl, refl))

  marked_lem :
      (now : ℕ) (error : Option String) (s : System V) (rest : List (Command V)) (done : ℕ)
      → s.live ≡ true
      → oldest s.handle.commands ≡ some (rest, reconciled done)
      → let t = step j config show_idle (takes now error) s in
        (t.live ≡ true)
        × (t.handle.reconcile_ready ≡ true)
        × (t.connection.frames ≡ s.connection.frames)
  unfolding step take react drive round obey
  marked_lem now error s rest done live first = simp live (rw (take, first) (refl, refl, refl))

  -- A mark of reconciliation that is still queued when its connection ends opens the gate of the
  -- next one: after the end, a handshake that succeeds and the taking of the mark, the next
  -- connection is driven with the gate open, and only the handshake has been written on it.
  pub stale_mark :
      (now later begun unix : ℕ) (ingress : Bool) (error : Option String) (h : Handshake V)
      (s : System V) (rest : List (Command V)) (done : ℕ)
      → s.live ≡ true
      → s.handle.is_open ≡ true
      → oldest s.handle.commands ≡ some (rest, reconciled done)
      → let down = step j config show_idle (hears now ended unix ingress) s in
        (initialize j config h down.connection).1 ≡ initialized
        → let up = step j config show_idle (connects h begun) down in
          let t = step j config show_idle (takes later error) up in
          (t.live ≡ true)
          × (t.handle.reconcile_ready ≡ true)
          × (t.connection.frames ≡ (initialize j config h down.connection).0.frames)
  stale_mark now later begun unix ingress error h s rest done live is_open first shaken =
      let down = step j config show_idle (hears now ended unix ingress) s in
      let (l, o, c, _) = ends_lem now unix ingress s live in
      let (l', o', c', _, f, _) = connects_lem h begun down l (o ∙ is_open) shaken in
      let up = step j config show_idle (connects h begun) down in
      let (l'', r, f') = marked_lem later error up rest done l' (ap oldest (c' ∙ c) ∙ first) in
      (l'', r, f' ∙ f)

  taken_lem :
      (now : ℕ) (s : System V) (rest : List (Command V)) (id : RpcId) (method : String) (params : V)
      (response : ℕ)
      → s.live ≡ true
      → oldest s.handle.commands ≡ some (rest, Command.request id method params response)
      → let t = step j config show_idle (takes now none) s in
        (t.live ≡ true)
        × (t.handle.reconcile_ready ≡ s.connection.reconcile_ready)
        × (t.connection.frames ≡ request_json j id method params ∷ s.connection.frames)
  unfolding step take react drive round obey
  taken_lem now s rest id method params response live first =
      simp live (rw (take, first) (refl, refl, refl))

  -- A request that is still queued when its connection ends, an action's that passed the gate then
  -- too, is written on the next connection while the gate of that one is closed: after the end, a
  -- handshake that succeeds and the taking of the request, it is the frame after the handshake's.
  pub stale_request :
      (now later begun unix : ℕ) (ingress : Bool) (h : Handshake V) (s : System V)
      (rest : List (Command V)) (id : RpcId) (method : String) (params : V) (response : ℕ)
      → s.live ≡ true
      → s.handle.is_open ≡ true
      → oldest s.handle.commands ≡ some (rest, Command.request id method params response)
      → let down = step j config show_idle (hears now ended unix ingress) s in
        (initialize j config h down.connection).1 ≡ initialized
        → let up = step j config show_idle (connects h begun) down in
          let t = step j config show_idle (takes later none) up in
          (t.live ≡ true)
          × (t.handle.reconcile_ready ≡ false)
          × (t.connection.frames
              ≡ request_json j id method params ∷ (initialize j config h down.connection).0.frames)
  stale_request now later begun unix ingress h s rest id method params response live is_open first
        shaken =
      let down = step j config show_idle (hears now ended unix ingress) s in
      let (l, o, c, _) = ends_lem now unix ingress s live in
      let (l', o', c', _, f, g) = connects_lem h begun down l (o ∙ is_open) shaken in
      let up = step j config show_idle (connects h begun) down in
      let (l'', r, f') =
        taken_lem later up rest id method params response l' (ap oldest (c' ∙ c) ∙ first) in
      (l'', r ∙ g, f' ∙ ap (λ fs. request_json j id method params ∷ fs) f)
