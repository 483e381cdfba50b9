-- ===== src/Transport/System/Greet.antt =====
-- What a handshake writes to the socket (`initialize` of src/transport/src/lib.rs).
use codex_warden.Prelude.{
  ℕ, suc, String, Bool, true, false, Option, some, none, List, [], ◌∷◌, Result, ok, err, ◌≡◌, refl,
  ap, sym, subst, add64, arith, Option-cases, inl, inr,
}
use codex_warden.Protocol.Json.{Json, JsonLaws, number, request as request_json, notification}
use codex_warden.Protocol.Frame.{IncomingFrame, parse}
use codex_warden.Transport.Drive.{Connection}
use codex_warden.Transport.Handshake.{
  TransportConfig, Greeting, got, Handshake, Greeted, initialized, refused, waiting, admit, verdict,
  client_info, greet, initialize,
}
use codex_warden.Transport.Handshake
use codex_warden.Transport.System.Tally.{one_if}
use codex_warden.Transport.System.Asked.{next-is_id}
use codex_warden.Transport.System.Wire.{
  Calls, Writes, silent, requests-request, requests-notification, is_call-request,
  is_call-notification,
}

module _ {V : Type 0} (j : Json V) (laws : JsonLaws j) (config : TransportConfig)
    (show_idle : ℕ → String) where
  greet-frames :
      (gs : List (Greeting V)) (c : Connection V) → (greet j config gs c).0.frames ≡ c.frames
  unfolding greet admit
  greet-frames [] c = refl
  greet-frames (Handshake.timed_out ∷ gs) c = refl
  greet-frames (Handshake.ended ∷ gs) c = refl
  greet-frames (Handshake.failed error ∷ gs) c = refl
  greet-frames (got (err error) unix now ingress ∷ gs) c = refl
  greet-frames (got (ok none) unix now ingress ∷ gs) c = greet-frames gs c
  greet-frames (got (ok (some value)) unix now ingress ∷ gs) c =
      heard (parse j value) ingress (λ frame. greet-frames gs (admit j config unix now frame c))
    where
      heard :
          (parsed : Result (IncomingFrame V) String) (ingress : Bool)
          → ((frame : IncomingFrame V)
              → (greet j config gs (admit j config unix now frame c)).0.frames ≡ c.frames)
          → let r : Connection V × Greeted = elim parsed [
            | err error ↦ (c, refused error)
            | ok frame ↦ elim ingress [
              | false ↦ (
                record c { sequence = add64 c.sequence 1 },
                refused "authoritative ingress closed",
              )
              | true ↦ elim (verdict frame) [
                | some true ↦ (admit j config unix now frame c, initialized)
                | some false ↦ (admit j config unix now frame c, refused "initialize rejected")
                | none ↦ greet j config gs (admit j config unix now frame c)
              ]
            ]
          ] in
            r.0.frames ≡ c.frames
      heard (err error) ingress rest = refl
      heard (ok frame) false rest = refl
      heard (ok frame) true rest = elim (Option-cases (verdict frame)) [
        | inl e ↦ rw e (rest frame)
        | inr (true, e) ↦ rw e refl
        | inr (false, e) ↦ rw e refl
      ]

  -- The request of a handshake bears no id that the handle gives out.
  pub initialize-Writes :
      (h : Handshake V) (c : Connection V) → Writes j (λ _. 0) c (initialize j config h c).0
  unfolding initialize
  initialize-Writes h c = opening h.opening_error
    where
      hello : Connection V
      hello = record c {
        frames = request_json j (number 0) "initialize" (client_info j config) ∷ c.frames;
      }

      said : Writes j (λ _. 0) c hello
      said = record {
        fewer = λ n. omega (
          arith,
          ap one_if (
              requests-request j laws 0 show_idle (number (suc n)) (number 0) "initialize"
                (client_info j config)),
          ap one_if (next-is_id 0 (suc n) (omega arith)),
        );
        calls = λ h.
            (is_call-request j laws 0 show_idle (number 0) "initialize" (client_info j config), h);
      }

      after : (r : Connection V × Greeted) → r.0.frames ≡ hello.frames → Writes j (λ _. 0) c r.0
      after r e = record {
        fewer = λ n. rw e (said.fewer n);
        calls = λ h. subst (Calls j) (sym e) (said.calls h);
      }

      go :
          (r : Connection V × Greeted)
          → Writes j (λ _. 0) c r.0
          → (error : Option String)
          → let r' : Connection V × Greeted = elim r.1 [
            | refused error ↦ (r.0, refused error)
            | waiting ↦ (r.0, waiting)
            | initialized ↦ elim error [
              | some error ↦ (r.0, refused error)
              | none ↦ (
                record (r.0) { frames = notification j "initialized" (j.object []) ∷ r.0.frames },
                initialized,
              )
            ]
          ] in
            Writes j (λ _. 0) c r'.0
      go (c', refused error) w e = w
      go (c', waiting) w e = w
      go (c', initialized) w (some error) = w
      go (c', initialized) w none = record {
        fewer = λ n. omega (
          arith,
          w.fewer n,
          ap one_if (
              requests-notification j laws 0 show_idle (number (suc n)) "initialized"
                (j.object [])),
        );
        calls =
            λ h. (is_call-notification j laws 0 show_idle "initialized" (j.object []), w.calls h);
      }

      opening :
          (error : Option String)
          → Writes j (λ _. 0) c (initialize j config (record h { opening_error = error }) c).0
      opening (some error) = silent j _ _ _ refl
      opening none =
          go (greet j config h.greetings hello)
            (after (greet j config h.greetings hello) (greet-frames h.greetings hello))
            h.closing_error
