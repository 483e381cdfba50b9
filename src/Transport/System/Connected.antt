-- ===== src/Transport/System/Connected.antt =====
-- A handshake and a new connection keep every request (`initialize` and `connection_loop` of
-- src/transport/src/lib.rs).
use codex_warden.Prelude.{
  ℕ, add64, String, Bool, true, false, Option, some, none, List, [], ◌∷◌, Result, ok, err, ◌≡◌, inl,
  inr, refl, ◌∙◌, arith, Option-cases,
}
use codex_warden.Protocol.Json.{Json, number, request as request_json, notification}
use codex_warden.Protocol.Frame.{IncomingFrame, parse}
use codex_warden.Transport.Drive.{Connection}
use codex_warden.Transport.Handshake.{
  TransportConfig, Greeting, got, Handshake, Greeted, initialized, refused, waiting, admit, verdict,
  client_info, greet, initialize,
}
use codex_warden.Transport.Handshake
use codex_warden.Transport.System.{System, moved, connect}
use codex_warden.Transport.System.Conserve.{Sound, Moves}

module _ {V : Type 0} (j : Json V) (config : TransportConfig) (show_idle : ℕ → String) where
  -- A handshake answers nothing and leaves what is pending.
  abbrev Leaves : Connection V → Connection V → Type 0
  Leaves c c' = (c'.pending ≡ c.pending) × (c'.answers ≡ c.answers)

  greet-Leaves : (gs : List (Greeting V)) (c : Connection V) → Leaves c (greet j config gs c).0
  unfolding greet
  greet-Leaves [] c = (refl, refl)
  greet-Leaves (Handshake.timed_out ∷ gs) c = (refl, refl)
  greet-Leaves (Handshake.ended ∷ gs) c = (refl, refl)
  greet-Leaves (Handshake.failed error ∷ gs) c = (refl, refl)
  greet-Leaves (got (err error) unix now ingress ∷ gs) c = (refl, refl)
  greet-Leaves (got (ok none) unix now ingress ∷ gs) c = greet-Leaves gs c
  greet-Leaves (got (ok (some value)) unix now ingress ∷ gs) c =
      heard (parse j value) ingress (λ frame. greet-Leaves gs (admit j config unix now frame c))
    where
      heard :
          (parsed : Result (IncomingFrame V) String) (ingress : Bool)
          → ((frame : IncomingFrame V)
              → Leaves c (greet j config gs (admit j config unix now frame c)).0)
          → let r : Connection V × Greeted = elim parsed [
            | err error ↦ (c, refused error)
            | ok frame ↦ elim ingress [
              | false ↦ (
                record c { sequence = add64 c.sequence 1 },
                refused "authoritative ingress closed",
              )
              | true ↦ elim (verdict frame) [
                | some true ↦ (admit j config unix now frame c, initialized)
                | some false ↦ (admit j config unix now frame c, refused "initialize rejected")
                | none ↦ greet j config gs (admit j config unix now frame c)
              ]
            ]
          ] in
            Leaves c r.0
      heard (err error) ingress rest = (refl, refl)
      heard (ok frame) false rest = (refl, refl)
      heard (ok frame) true rest = elim (Option-cases (verdict frame)) [
        | inl e ↦ rw e (rest frame)
        | inr (true, e) ↦ rw e (refl, refl)
        | inr (false, e) ↦ rw e (refl, refl)
      ]

  initialize-Leaves : (h : Handshake V) (c : Connection V) → Leaves c (initialize j config h c).0
  unfolding initialize
  initialize-Leaves h c = opening h.opening_error
    where
      hello : Connection V
      hello = record c {
        frames = request_json j (number 0) "initialize" (client_info j config) ∷ c.frames;
      }

      go :
          (r : Connection V × Greeted)
          → Leaves c r.0
          → (error : Option String)
          → let r' : Connection V × Greeted = elim r.1 [
            | refused error ↦ (r.0, refused error)
            | waiting ↦ (r.0, waiting)
            | initialized ↦ elim error [
              | some error ↦ (r.0, refused error)
              | none ↦ (
                record (r.0) { frames = notification j "initialized" (j.object []) ∷ r.0.frames },
                initialized,
              )
            ]
          ] in
            Leaves c r'.0
      go (c', refused error) l e = l
      go (c', waiting) l e = l
      go (c', initialized) l none = l
      go (c', initialized) l (some error) = l

      opening :
          (error : Option String)
          → Leaves c (initialize j config (record h { opening_error = error }) c).0
      opening (some error) = (refl, refl)
      opening none =
          go (greet j config h.greetings hello) (greet-Leaves h.greetings hello) h.closing_error

  met-Moves :
      (c : Connection V) (live : Bool) (s : System V)
      → s.connection.pending ≡ []
      → c.pending ≡ []
      → c.answers ≡ s.connection.answers
      → Moves s (moved c live s.handle.is_open s)
  met-Moves c live s none_ p a = record {
    holds = λ n. rw (p, a, none_) refl;
    names = λ k. rw (p, none_) (omega arith);
    ids = refl;
    channels = omega arith;
    rests = λ e. p;
  }

  pub connect-Moves :
      (h : Handshake V) (begun : ℕ) (s : System V)
      → s.live ≡ false
      → Sound s
      → Moves s (connect j config show_idle h begun s)
  unfolding connect
  connect-Moves h begun s down sound =
      go (initialize j config h s.connection) (initialize-Leaves h s.connection) (sound.idle down)
    where
      go :
          (r : Connection V × Greeted)
          → Leaves s.connection r.0
          → s.connection.pending ≡ []
          → Moves s (elim r.1 [
            | initialized ↦
                moved
                  (record (r.0) { reconcile_ready = false; pending = []; last_read = begun })
                  true
                  s.handle.is_open
                  s
            | _ ↦ moved (r.0) false s.handle.is_open s
          ])
      go (c, refused error) (p, a) none_ = met-Moves c false s none_ (p ∙ none_) a
      go (c, waiting) (p, a) none_ = met-Moves c false s none_ (p ∙ none_) a
      go (c, initialized) (p, a) none_ =
          met-Moves (record c { reconcile_ready = false; pending = []; last_read = begun }) true s
            none_ refl a
